-- ===== src/Vuln/Endpoints/Allowed.antt =====
-- `is_allowlisted_feed_url` of src/vuln/endpoints.cpp: which addresses can be reached.
use bomwerk.Prelude.{
  ℕ, suc, ◌≡◌, ◌↔◌, ◌⊎◌, refl, sym, ap, ◌∙◌, Bool, true, false, ◌&&◌, List, [], ◌∷◌, ◌++◌, arith,
  inl, inr, Bytes, equal, equal_iff, starts_with, starts_with-append, starts_with-split, append-nil,
  length, length-append, drop, drop-length-append, get_or, ltb, Any, any_of, Bool-cases, ◌==◌,
  ==_iff, drop-get_or,
}
use bomwerk.Vuln.Endpoints.{
  FeedEndpoint, feed_endpoints, matches, is_safe_registry_subpath, is_allowlisted_feed_url,
}
use bomwerk.Vuln.Endpoints.Subpath.{IsSubpath, is_safe_registry_subpath_iff}

-- What may stand behind the address of an endpoint.
pub data Extends (subpaths : Bool) : Bytes → Type 0 where
  nothing : Extends subpaths []
  path : (s : Bytes) → subpaths ≡ true → IsSubpath s → Extends subpaths s
  query : (s : Bytes) → subpaths ≡ false → Extends subpaths (b'?' ∷ s)

abbrev pub Reaches : Bytes → FeedEndpoint → Type 0
Reaches url e = (rest : Bytes) × (url ≡ e.url ++ rest) × Extends e.allows_subpaths rest

get_or-length : (a : Bytes) (c : ℕ) (b : Bytes) → get_or (a ++ c ∷ b) (length a) 0 ≡ c
get_or-length [] c b = refl
get_or-length (x ∷ a) c b = get_or-length a c b

equal_refl : (s : Bytes) → equal s s ≡ true
equal_refl s = (equal_iff s s).1 refl

same_matches : (url : Bytes) (e : FeedEndpoint) → equal url e.url ≡ true → matches url e ≡ true
unfolding matches
same_matches url e h = rw h

module _ (url : Bytes) (e : FeedEndpoint) (other : equal url e.url ≡ false) where
  path_matches :
      e.allows_subpaths ≡ true
      → matches url e
        ≡ (starts_with url e.url && is_safe_registry_subpath (drop (length e.url) url))
  unfolding matches
  path_matches h = rw (other, h)

  query_matches :
      e.allows_subpaths ≡ false
      → matches url e ≡ (
          ltb (length e.url) (length url)
          && (starts_with url e.url && get_or url (length e.url) 0 == b'?'))
  unfolding matches
  query_matches h = rw (other, h)

split_and : (a b : Bool) → (a && b) ≡ true → (a ≡ true) × (b ≡ true)
split_and true b h = (refl, h)
split_and false b h = cc

matches-Reaches : (url : Bytes) (e : FeedEndpoint) → matches url e ≡ true → Reaches url e
matches-Reaches url e h = elim (Bool-cases (equal url e.url)) [
  | inl same ↦ ([], (equal_iff url e.url).0 same ∙ sym (append-nil e.url), nothing)
  | inr other ↦ elim (Bool-cases e.allows_subpaths) [
    | inl subpaths ↦
        let (front, safe) =
          split_and (starts_with url e.url) _ (sym (path_matches url e other subpaths) ∙ h) in
        (
          drop (length e.url) url,
          starts_with-split url e.url front,
          path (drop (length e.url) url) subpaths
              ((is_safe_registry_subpath_iff (drop (length e.url) url)).0 safe),
        )
    | inr fixed ↦
        let (longer, both) =
          split_and (ltb (length e.url) (length url)) _
            (sym (query_matches url e other fixed) ∙ h) in
        let (front, mark) = split_and (starts_with url e.url) _ both in
        let value : get_or url (length e.url) 0 ≡ b'?' = (==_iff _ b'?').0 mark in
        let behind : drop (length e.url) url ≡ b'?' ∷ drop (suc (length e.url)) url =
          drop-get_or (length e.url) url 0 (ground arith)
          ∙ ap (λ (c : ℕ). c ∷ drop (suc (length e.url)) url) value in
        (
          b'?' ∷ drop (suc (length e.url)) url,
          starts_with-split url e.url front ∙ ap (λ t. e.url ++ t) behind,
          query (drop (suc (length e.url)) url) fixed,
        )
  ]
]

reaches_more :
    {subpaths : Bool} {rest : Bytes} (e : FeedEndpoint)
    → e.allows_subpaths ≡ subpaths
    → equal (e.url ++ rest) e.url ≡ false
    → Extends subpaths rest
    → matches (e.url ++ rest) e ≡ true
reaches_more e kind other nothing =
    absurd (ground (arith, (equal_iff (e.url ++ []) e.url).1 (append-nil e.url)))
reaches_more e kind other (path s subpaths p) =
    path_matches (e.url ++ s) e other (kind ∙ subpaths)
    ∙ rw (starts_with-append e.url s, drop-length-append e.url s)
        ((is_safe_registry_subpath_iff s).1 p)
reaches_more e kind other (query s fixed) =
    let longer : ltb (length e.url) (length (e.url ++ b'?' ∷ s)) ≡ true =
      ground (arith, length-append e.url (b'?' ∷ s)) in
    query_matches (e.url ++ b'?' ∷ s) e other (kind ∙ fixed)
    ∙ rw (longer, starts_with-append e.url (b'?' ∷ s), get_or-length e.url b'?' s)

reaches :
    (e : FeedEndpoint) (rest : Bytes)
    → Extends e.allows_subpaths rest
    → matches (e.url ++ rest) e ≡ true
reaches e rest x = elim (Bool-cases (equal (e.url ++ rest) e.url)) [
  | inl same ↦ same_matches (e.url ++ rest) e same
  | inr other ↦ reaches_more e refl other x
]

matches_iff : (url : Bytes) (e : FeedEndpoint) → (matches url e ≡ true) ↔ Reaches url e
matches_iff url e =
    (matches-Reaches url e, λ (rest, whole, x). ap (λ t. matches t e) whole ∙ reaches e rest x)

any_of_iff :
    (url : Bytes) (es : List FeedEndpoint) → (any_of (matches url) es ≡ true) ↔ Any (Reaches url) es
any_of_iff url [] = (λ h. cc, λ h. absurd h)
any_of_iff url (e ∷ es) =
    let (to, from) = any_of_iff url es in
    elim (Bool-cases (matches url e)) [
      | inl hit ↦ (λ _. inl ((matches_iff url e).0 hit), λ _. rw (hit, any_of))
      | inr miss ↦ (
        λ h. inr (to (rw (miss, any_of) at h)),
        λ r.
            rw (miss, any_of)
              (elim r [
                | inl first ↦ absurd (ground (arith, (matches_iff url e).1 first))
                | inr later ↦ from later
              ]),
      )
    ]

-- An address is allowed exactly when it is that of an endpoint of the table or of one that has been
-- registered, alone or with more behind it: a query string behind a fixed address, and behind the
-- root of a registry one path segment or more, of lowercase letters, digits and `._+-`, none of them
-- empty, `.` or `..`.
pub is_allowlisted_feed_url_iff :
    (storage : List FeedEndpoint) (url : Bytes)
    → (is_allowlisted_feed_url storage url ≡ true)
      ↔ (Any (Reaches url) feed_endpoints ⊎ Any (Reaches url) storage)
unfolding is_allowlisted_feed_url
is_allowlisted_feed_url_iff storage url = elim (Bool-cases (any_of (matches url) feed_endpoints)) [
  | inl hit ↦ (λ _. inl ((any_of_iff url feed_endpoints).0 hit), λ _. rw hit)
  | inr miss ↦ (
    λ h. inr ((any_of_iff url storage).0 (rw miss at h)),
    λ r. rw miss (elim r [
      | inl first ↦ absurd (ground (arith, (any_of_iff url feed_endpoints).1 first))
      | inr later ↦ (any_of_iff url storage).1 later
    ]),
  )
]
