-- ===== src/Encoding/Utf8.antt =====
-- `Buffer.from(text)`: the UTF-8 encoding, for code units outside the surrogates.
use lisk_migrator.Common.{◌+◌, ◌/◌, ◌%◌, [], ◌∷◌, ltb, if◌then◌else◌, Bytes, Text}

unfoldable pub utf8 : Text → Bytes
utf8 [] = []
utf8 (c ∷ s) =
    let rest = utf8 s in
    if ltb c 0x80
    then c ∷ rest
    else if ltb c 0x800
    then (0xc0 + c / 64) ∷ (0x80 + c % 64) ∷ rest
    else (0xe0 + c / 4096) ∷ (0x80 + c / 64 % 64) ∷ (0x80 + c % 64) ∷ rest
