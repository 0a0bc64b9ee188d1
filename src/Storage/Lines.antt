-- ===== src/Storage/Lines.antt =====
-- A text of lines, as the block file of adapters/storage_file.go is one.
use xenium.Prelude.{◌≢◌, ◌<◌, List, [], ◌∷◌, ◌++◌, All, length}
use xenium.Prelude.Bytes.{Bytes}
use xenium.Storage.{newline}

unfoldable pub unlines : List Bytes → Bytes
unlines [] = []
unlines (line ∷ lines) = line ++ newline ∷ unlines lines

-- A line that a `bufio.Scanner` with its default buffer of 64 KB yields as it is.
pub record IsLine (line : Bytes) : Type 0 where
  pub one_line : All (λ b. (b ≢ newline) × (b ≢ 13)) line
  pub fits : length line < 65535
