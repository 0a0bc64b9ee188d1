-- ===== src/Text.antt =====
-- Numbers and bytes as text: itoa of consensus/pov.go and core/blockchain.go, and what the program
-- uses of Go's strconv and encoding/hex.
pub mod Digits
pub mod Hex
