-- ===== src/Core/Purl/Accessors.antt =====
-- The accessors of src/core/purl.cpp on a purl put together from its parts.
use bomwerk.Prelude.{
  ℕ, ◌≡◌, refl, ap, sym, ◌∙◌, Bool, true, ◌||◌, [], ◌∷◌, ◌++◌, append_assoc, Bytes, All-append,
  Fails, codes, take-length-append, drop_past, find_first-none, find_first-append, find_last-none,
  find_last-append, ◌==◌, append-nil, starts_with,
}
use bomwerk.Core.Purl.{
  purl_identity_part, purl_type_of, purl_version_of, purl_name_of, after_last_slash,
  without_version, before_slash,
}

abbrev is_slash : ℕ → Bool
is_slash c = c == b'/'

abbrev is_at : ℕ → Bool
is_at c = c == b'@'

abbrev is_extra : ℕ → Bool
is_extra c = c == b'?' || c == b'#'

-- Empty, or a namespace with the slash behind it.
pub data IsPath : Bytes → Type 0 where
  bare : IsPath []
  under : (namespace : Bytes) → IsPath (namespace ++ b'/' ∷ [])

-- Empty, or qualifiers or a subpath.
pub data IsExtras : Bytes → Type 0 where
  absent : IsExtras []
  present : (mark : ℕ) (s : Bytes) → is_extra mark ≡ true → IsExtras (mark ∷ s)

pub record IsPlain (type path name version : Bytes) : Type 0 where
  pub type_plain : Fails is_extra type
  pub path_plain : Fails is_extra path
  pub name_plain : Fails is_extra name
  pub version_plain : Fails is_extra version
  pub type_whole : Fails is_slash type
  pub name_whole : Fails is_slash name
  pub version_whole : Fails is_at version

abbrev pub purl_of : Bytes → Bytes → Bytes → Bytes → Bytes
purl_of type path name version = codes "pkg:" ++ (type ++ b'/' ∷ (path ++ (name ++ b'@' ∷ version)))

identity_of : (s e : Bytes) → Fails is_extra s → IsExtras e → purl_identity_part (s ++ e) ≡ s
unfolding purl_identity_part
identity_of s e h absent =
    ap purl_identity_part (append-nil s)
    ∙ rw (find_first-none is_extra s h, purl_identity_part) refl
identity_of s e h (present mark t hm) =
    rw (find_first-append is_extra s mark t h hm, purl_identity_part)
      (take-length-append s (mark ∷ t))

last_name :
    (path name : Bytes) → IsPath path → Fails is_slash name → after_last_slash (path ++ name) ≡ name
last_name path name bare h = rw (find_last-none is_slash name h, after_last_slash)
last_name path name (under ns) h =
    ap after_last_slash (append_assoc ns (b'/' ∷ []) name)
    ∙ rw (find_last-append is_slash ns b'/' name h refl, after_last_slash) (drop_past ns b'/' name)

version_behind : (a v : Bytes) → Fails is_at v → purl_version_of (a ++ b'@' ∷ v) ≡ v
unfolding purl_version_of
version_behind a v h =
    rw (find_last-append is_at a b'@' v h refl, purl_version_of) (drop_past a b'@' v)

front_of_version : (a v : Bytes) → Fails is_at v → without_version (a ++ b'@' ∷ v) ≡ a
front_of_version a v h =
    rw (find_last-append is_at a b'@' v h refl, without_version) (take-length-append a (b'@' ∷ v))

type_front : (t s : Bytes) → Fails is_slash t → purl_type_of (codes "pkg:" ++ (t ++ b'/' ∷ s)) ≡ t
unfolding purl_type_of starts_with
type_front t s h =
    rw (find_first-append is_slash t b'/' s h refl, before_slash) (take-length-append t (b'/' ∷ s))

name_behind :
    (t s : Bytes)
    → Fails is_slash t
    → purl_name_of (codes "pkg:" ++ (t ++ b'/' ∷ s)) ≡ after_last_slash (without_version s)
unfolding purl_name_of starts_with
name_behind t s h =
    rw (find_first-append is_slash t b'/' s h refl, purl_name_of)
      (ap (λ u. after_last_slash (without_version u)) (drop_past t b'/' s))

module _ (type path name version : Bytes) (p : IsPlain type path name version) where
  plain : Fails is_extra (purl_of type path name version)
  plain = (
    refl,
    (
      refl,
      (
        refl,
        (
          refl,
          All-append _ type _ p.type_plain (
            refl,
            All-append _ path _ p.path_plain
                (All-append _ name _ p.name_plain (refl, p.version_plain)),
          ),
        ),
      ),
    ),
  )

  regroup :
      purl_of type path name version
      ≡ (codes "pkg:" ++ (type ++ b'/' ∷ (path ++ name))) ++ b'@' ∷ version
  regroup = simp append_assoc

  version_part : purl_version_of (purl_of type path name version) ≡ version
  version_part =
      ap purl_version_of regroup
      ∙ version_behind (codes "pkg:" ++ (type ++ b'/' ∷ (path ++ name))) version p.version_whole

  name_part : IsPath path → purl_name_of (purl_of type path name version) ≡ name
  name_part h =
      name_behind type (path ++ (name ++ b'@' ∷ version)) p.type_whole
      ∙ ap (λ u. after_last_slash (without_version u))
          (sym (append_assoc path name (b'@' ∷ version)))
      ∙ ap after_last_slash (front_of_version (path ++ name) version p.version_whole)
      ∙ last_name path name h p.name_whole

  -- The accessors read back the parts of a purl with a version, with or without a namespace, whatever
  -- qualifiers and subpath stand behind it, when the parts hold no byte that separates them.
  pub purl_parts :
      (extras : Bytes)
      → IsPath path
      → IsExtras extras
      → (purl_identity_part (purl_of type path name version ++ extras)
          ≡ purl_of type path name version)
        × (purl_type_of (purl_of type path name version) ≡ type)
        × (purl_name_of (purl_of type path name version) ≡ name)
        × (purl_version_of (purl_of type path name version) ≡ version)
  purl_parts extras hp he =
      (identity_of _ extras plain he, type_front type _ p.type_whole, name_part hp, version_part)
