-- ===== src/Core/Uuid.antt =====
-- src/core/uuid.cpp: the text of a UUID, and UUIDs of version 5.
pub mod Version
pub mod ReadBack
use bomwerk.Prelude.{
  ℕ, zero, suc, ◌+◌, ◌/◌, ◌^◌, ◌||◌, [], ◌∷◌, ◌++◌, Bytes, codes, get_or, take, drop, ◌==◌,
  if◌then◌else◌, bit_and, bit_or,
}
use bomwerk.Core.Sha1.{sha1}

-- The sixteen bytes.
pub record Uuid : Type 0 where
  pub bytes : Bytes

abbrev pub hex_alphabet : Bytes
hex_alphabet = codes "0123456789abcdef"

unfoldable pub dash_before : ℕ → Bytes
dash_before byte_index =
    if byte_index == 4 || (byte_index == 6 || (byte_index == 8 || byte_index == 10))
    then b'-' ∷ []
    else []

-- The text from a byte on.
unfoldable pub formatted_from : ℕ → Bytes → Bytes
unfolding dash_before
formatted_from byte_index [] = []
formatted_from byte_index (byte ∷ rest) =
    dash_before byte_index
    ++ (get_or hex_alphabet (byte / 2 ^ 4) 0
        ∷ get_or hex_alphabet (bit_and byte 0x0F) 0
        ∷ formatted_from (byte_index + 1) rest)

unfoldable pub to_string : Uuid → Bytes
unfolding formatted_from
to_string u = formatted_from 0 u.bytes

-- uuid_bytes[index] = value
unfoldable pub set_byte : Bytes → ℕ → ℕ → Bytes
set_byte [] index value = []
set_byte (x ∷ bytes) zero value = value ∷ bytes
set_byte (x ∷ bytes) (suc index) value = x ∷ set_byte bytes index value

unfoldable pub uuidv5 : Uuid → Bytes → Uuid
unfolding set_byte
uuidv5 namespace_id name =
    let uuid_bytes = take 16 (sha1 (namespace_id.bytes ++ name)) in
    let versioned = set_byte uuid_bytes 6 (bit_or (bit_and (get_or uuid_bytes 6 0) 0x0F) 0x50) in
    record { bytes = set_byte versioned 8 (bit_or (bit_and (get_or versioned 8 0) 0x3F) 0x80) }

abbrev pub purl_namespace : Uuid
purl_namespace = record {
  bytes =
      0xa9 ∷ 0xed ∷ 0x27 ∷ 0xb8 ∷ 0xae ∷ 0xaa ∷ 0x51 ∷ 0x58 ∷ 0x8f ∷ 0x3a ∷ 0x40 ∷ 0x09 ∷ 0x32
      ∷ 0x50 ∷ 0x59 ∷ 0x98 ∷ [];
}
