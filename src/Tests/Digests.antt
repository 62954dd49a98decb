-- ===== src/Tests/Digests.antt =====
-- Runs on digests: src/core/sha256.cpp and src/core/uuid.cpp.
use bomwerk.Prelude.{
  ◌/◌, ◌%◌, ◌≤◌, ◌≡◌, ◌↔◌, refl, some, none, List, [], ◌∷◌, ◌++◌, take, drop, Bytes, IsByte, All,
  codes, length, word_bytes, load_word,
}
use bomwerk.Core.Sha256.{
  hex_pairs, lowercase_hex_value, new_sha256, update, digest, digest_tail, sha256, to_hex,
  sha256_from_hex, compress_block, compress_blocks, rotate_right, length_suffix, registers_bytes,
  topped_up, buffer_rest, zeros,
}
use bomwerk.Core.Sha256.Digest.{feed, concat, message_digest, padded, digest-feed, digest_tail-feed}
use bomwerk.Core.Sha256.Hex.{sha256_from_hex_iff}
use bomwerk.Core.Sha1.{
  sha1, rotate_left, sha1_block, sha1_blocks, words_bytes, push_length, push_zeros, padded_message,
  initial_words,
}
use bomwerk.Core.Sha1.Padding.{fold_words, sha1_lem}
use bomwerk.Core.Uuid.{Uuid, uuidv5, to_string, purl_namespace}
use bomwerk.Core.Uuid.Version.{Marks, uuidv5_lem}
use bomwerk.Core.Uuid.ReadBack.{to_string_lem}

abbrev slices : List Bytes
slices = codes "ab" ∷ [] ∷ codes "c" ∷ []

digest-feed_example : digest (feed new_sha256 slices) ≡ message_digest (concat slices)
digest-feed_example = digest-feed slices

digest_tail-feed_example :
    (length (digest_tail (feed new_sha256 slices)) ≤ 128)
    × (length (digest_tail (feed new_sha256 slices)) % 64 ≡ 0)
digest_tail-feed_example = digest_tail-feed slices

abbrev abc_digest : Bytes
abc_digest =
    0xba ∷ 0x78 ∷ 0x16 ∷ 0xbf ∷ 0x8f ∷ 0x01 ∷ 0xcf ∷ 0xea ∷ 0x41 ∷ 0x41 ∷ 0x40 ∷ 0xde ∷ 0x5d ∷ 0xae
    ∷ 0x22 ∷ 0x23 ∷ 0xb0 ∷ 0x03 ∷ 0x61 ∷ 0xa3 ∷ 0x96 ∷ 0x17 ∷ 0x7a ∷ 0x9c ∷ 0xb4 ∷ 0x10 ∷ 0xff
    ∷ 0x61 ∷ 0xf2 ∷ 0x00 ∷ 0x15 ∷ 0xad ∷ []

abbrev abc_text : Bytes
abc_text = codes "ba7816bf8f01cfea414140de5dae2223b00361a396177a9cb410ff61f20015ad"

sha256_abc : sha256 (codes "abc") ≡ abc_digest
unfolding sha256 update digest compress_block compress_blocks zeros buffer_rest rotate_right
    length_suffix registers_bytes topped_up word_bytes load_word
sha256_abc = refl

sha256_sliced : digest (update (update new_sha256 (codes "ab")) (codes "c")) ≡ abc_digest
unfolding update digest compress_block compress_blocks zeros buffer_rest rotate_right length_suffix
    registers_bytes topped_up word_bytes load_word
sha256_sliced = refl

hex_abc : to_hex abc_digest ≡ abc_text
unfolding to_hex
hex_abc = refl

sha256_from_hex_iff_run :
    (sha256_from_hex abc_text ≡ some abc_digest)
    ↔ ((length abc_digest ≡ 32) × All IsByte abc_digest × (abc_text ≡ to_hex abc_digest))
sha256_from_hex_iff_run = sha256_from_hex_iff abc_text abc_digest

upper_refused :
    sha256_from_hex (codes "BA7816BF8F01CFEA414140DE5DAE2223B00361A396177A9CB410FF61F20015AD")
    ≡ none
unfolding sha256_from_hex hex_pairs lowercase_hex_value
upper_refused = refl

-- The namespace of the DNS, 6ba7b810-9dad-11d1-80b4-00c04fd430c8.
abbrev dns_namespace : Uuid
dns_namespace = record {
  bytes =
      0x6b ∷ 0xa7 ∷ 0xb8 ∷ 0x10 ∷ 0x9d ∷ 0xad ∷ 0x11 ∷ 0xd1 ∷ 0x80 ∷ 0xb4 ∷ 0x00 ∷ 0xc0 ∷ 0x4f
      ∷ 0xd4 ∷ 0x30 ∷ 0xc8 ∷ [];
}

-- The fixed namespace of the program is the one that its comment derives.
purl_namespace_derived : uuidv5 dns_namespace (codes "bomwerk.dev") ≡ purl_namespace
unfolding uuidv5 sha1 word_bytes load_word rotate_left sha1_block sha1_blocks words_bytes
    push_length push_zeros padded_message
purl_namespace_derived = refl

uuidv5_lem_example :
    Marks
      (sha1 (dns_namespace.bytes ++ codes "bomwerk.dev"))
      (uuidv5 dns_namespace (codes "bomwerk.dev")).bytes
uuidv5_lem_example = uuidv5_lem dns_namespace (codes "bomwerk.dev")

to_string_lem_run :
    to_string purl_namespace
    ≡ to_hex (take 4 purl_namespace.bytes)
      ++ (b'-' ∷ to_hex (take 2 (drop 4 purl_namespace.bytes))
          ++ (b'-' ∷ to_hex (take 2 (drop 6 purl_namespace.bytes))
              ++ (b'-' ∷ to_hex (take 2 (drop 8 purl_namespace.bytes))
                  ++ (b'-' ∷ to_hex (drop 10 purl_namespace.bytes)))))
to_string_lem_run = to_string_lem purl_namespace refl

to_string_run : to_string purl_namespace ≡ codes "a9ed27b8-aeaa-5158-8f3a-400932505998"
unfolding to_string
to_string_run = refl

sha1_lem_example :
    sha1 (codes "abc")
    ≡ words_bytes
        (fold_words (length (padded (codes "abc")) / 64) (padded (codes "abc")) 0 initial_words)
sha1_lem_example = sha1_lem (codes "abc")
