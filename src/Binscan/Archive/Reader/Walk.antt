-- ===== src/Binscan/Archive/Reader/Walk.antt =====
-- The walk of src/binscan/archive_read.cpp ends, and stays inside the file.
use bomwerk.Prelude.{
  ℕ, zero, suc, ◌+◌, ◌-◌, ◌%◌, ◌≤◌, ◌<◌, ◌≡◌, refl, ap, ◌∙◌, Bool, true, false, Option, none, some,
  arith, Bytes, equal, less, length, substr, starts_with, starts_with-split, ltb, IsIncreasing,
  Bool-cases, inl, inr,
}
use bomwerk.Core.Warnings.{Result}
use bomwerk.Binscan.Bounds.{max_archive_members}
use bomwerk.Binscan.Bounds.Sample.{normalize_and_cap_lem}
use bomwerk.Binscan.Archive.{
  archive_magic, member_header_size, member_trailer, parse_decimal_field, raw_member_name,
  ArchiveContents,
}
use bomwerk.Binscan.Archive.Reader.{
  ArchiveReader, Step, stopped, next, after_data, with_declared_size, read_member, read_member_data,
  walk_members, finished, finished_outcome, new_reader, BoundedFileRead, read_archive,
}

-- A step that goes on goes on behind the header that it read, and inside the file.
IsForward : ℕ → ℕ → Step → Type 0
IsForward offset size (stopped reader) = Unit
IsForward offset size (next later reader) = (offset + 60 ≤ later) × (later ≤ size)

after_data-IsForward :
    (bytes : Bytes) (offset size : ℕ) (outcome : ArchiveReader × Bool)
    → offset + 60 ≤ length bytes
    → IsForward offset (length bytes) (after_data bytes (offset + 60) size outcome)
unfolding IsForward after_data
after_data-IsForward bytes offset size (reader, false) h = tt
after_data-IsForward bytes offset size (reader, true) h =
    elim (Bool-cases (ltb (length bytes - (offset + 60)) (size + size % 2))) [
      | inl e ↦ rw (e, IsForward) tt
      | inr e ↦ rw (e, IsForward) (omega arith, ground arith)
    ]

with_declared_size-IsForward :
    (bytes : Bytes) (offset : ℕ) (header : Bytes) (declared : Option ℕ) (reader : ArchiveReader)
    → offset + 60 ≤ length bytes
    → IsForward offset (length bytes) (with_declared_size bytes offset header declared reader)
unfolding IsForward with_declared_size
with_declared_size-IsForward bytes offset header none reader h = tt
with_declared_size-IsForward bytes offset header (some size) reader h =
    elim (Bool-cases (ltb (length bytes - (offset + 60)) size)) [
      | inl e ↦ rw (e, IsForward) tt
      | inr e ↦ rw (e) (
          after_data-IsForward bytes offset size
            (read_member_data (raw_member_name header) (substr bytes (offset + 60) size) reader) h)
    ]

-- A round of the walk that goes on goes on at least a header further, and inside the file.
read_member-IsForward :
    (bytes : Bytes) (offset : ℕ) (reader : ArchiveReader)
    → offset < length bytes
    → IsForward offset (length bytes) (read_member bytes offset reader)
unfolding IsForward read_member
read_member-IsForward bytes offset reader inside =
    let header = substr bytes offset member_header_size in
    elim (Bool-cases (ltb (length bytes - offset) member_header_size)) [
      | inl e ↦ rw (e, IsForward) tt
      | inr e ↦
          elim (Bool-cases (equal (substr header 58 (length member_trailer)) member_trailer)) [
            | inr f ↦ rw (e, f, IsForward) tt
            | inl f ↦
                rw (e, f)
                  (with_declared_size-IsForward bytes offset header
                    (parse_decimal_field (substr header 48 10)) reader (ground arith))
          ]
    ]

walk_step : (fuel : ℕ) (bytes : Bytes) (offset : ℕ) (step : Step) → Option ArchiveReader
walk_step fuel bytes offset (stopped last) = some last
walk_step fuel bytes offset (next later_offset later) = walk_members fuel bytes later_offset later

walk_step_ends :
    (fuel : ℕ) (bytes : Bytes) (offset : ℕ) (step : Step)
    → IsForward offset (length bytes) step
    → length bytes < offset + suc fuel
    → ((later_offset : ℕ) (later : ArchiveReader)
        → later_offset ≤ length bytes
        → length bytes < later_offset + fuel
        → (last : ArchiveReader) × (walk_members fuel bytes later_offset later ≡ some last))
    → (last : ArchiveReader) × (walk_step fuel bytes offset step ≡ some last)
unfolding IsForward walk_step
walk_step_ends fuel bytes offset (stopped last) forward h rest = (last, refl)
walk_step_ends fuel bytes offset (next later_offset later) (far, inside) h rest =
    rest later_offset later inside (omega arith)

walk_members-walk_step :
    (fuel : ℕ) (bytes : Bytes) (offset : ℕ) (reader : ArchiveReader)
    → ltb offset (length bytes) ≡ true
    → walk_members (suc fuel) bytes offset reader
      ≡ walk_step fuel bytes offset (read_member bytes offset reader)
unfolding walk_members walk_step
walk_members-walk_step fuel bytes offset reader e = rw (e, walk_members) refl

-- From any offset in the file, fuel for what is left of it and one more round is enough.
walk_members_ends :
    (fuel : ℕ) (bytes : Bytes) (offset : ℕ) (reader : ArchiveReader)
    → offset ≤ length bytes
    → length bytes < offset + fuel
    → (last : ArchiveReader) × (walk_members fuel bytes offset reader ≡ some last)
unfolding walk_members
walk_members_ends zero bytes offset reader inside h = absurd (omega arith)
walk_members_ends (suc fuel) bytes offset reader inside h =
    elim (Bool-cases (ltb offset (length bytes))) [
      | inr e ↦ (reader, rw (e, walk_members) refl)
      | inl e ↦
          let (last, ends) =
            walk_step_ends fuel bytes offset (read_member bytes offset reader)
              (read_member-IsForward bytes offset reader (ground arith)) h
              (walk_members_ends fuel bytes) in
          (last, walk_members-walk_step fuel bytes offset reader e ∙ ends)
    ]

-- the member names as every outcome has them
abbrev pub HasMemberNames : Result ArchiveContents → Type 0
HasMemberNames outcome =
    IsIncreasing less outcome.value.member_names
    × (length outcome.value.member_names ≤ max_archive_members)

finished-HasMemberNames : (reader : ArchiveReader) → HasMemberNames (finished reader).outcome
unfolding finished
finished-HasMemberNames reader =
    normalize_and_cap_lem reader.outcome.value.member_names max_archive_members

walked :
    (bytes path : Bytes)
    → starts_with bytes archive_magic ≡ true
    → (outcome : Result ArchiveContents) × (finished_outcome
          (walk_members (length bytes + 1) bytes (length archive_magic) (new_reader path))
        ≡ some outcome)
      × HasMemberNames outcome
unfolding finished_outcome
walked bytes path h =
    let size : 8 ≤ length bytes =
      omega (arith, ap length (starts_with-split bytes archive_magic h)) in
    let (last, ends) =
      walk_members_ends (length bytes + 1) bytes 8 (new_reader path) (omega arith) (omega arith) in
    ((finished last).outcome, ap finished_outcome ends, finished-HasMemberNames last)

-- Whatever the file holds, reading it as an archive ends with an outcome, the fuel being enough; its
-- member names are strictly increasing, and no more than the cap.
pub read_archive_lem :
    (path : Bytes) (file : BoundedFileRead)
    → (outcome : Result ArchiveContents) × (read_archive path file ≡ some outcome)
      × HasMemberNames outcome
unfolding read_archive
read_archive_lem path file = elim (Bool-cases file.readable) [
  | inr e ↦ rw (e, read_archive) (_, refl, (tt, omega arith))
  | inl e ↦ elim (Bool-cases file.truncated) [
    | inl f ↦ rw (e, f, read_archive) (_, refl, (tt, omega arith))
    | inr f ↦ elim (Bool-cases (starts_with file.bytes archive_magic)) [
      | inr g ↦ rw (e, f, g, read_archive) (_, refl, (tt, omega arith))
      | inl g ↦
          let (outcome, ends, names) = walked file.bytes path g in
          rw (e, f, g, read_archive) (outcome, ends, names)
    ]
  ]
]
