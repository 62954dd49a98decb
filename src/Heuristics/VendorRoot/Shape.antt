-- ===== src/Heuristics/VendorRoot/Shape.antt =====
-- The roots that `vendor_root_for` of src/heuristics/vendor_root.cpp finds.
use bomwerk.Prelude.{
  ◌≡◌, ◌↔◌, refl, sym, ap, ◌∙◌, subst, Bool, true, false, ◌||◌, none, some, List, [], ◌∷◌, ◌++◌,
  append_assoc, arith, inl, inr, Bytes, All, Bool-cases,
}
use bomwerk.Heuristics.VendorRoot.{
  at_end, is_trigger_dir_name, is_test_or_fixture_dir_name, is_dns_namespace_container_name,
  chain_root, root_from, vendor_root_for,
}

abbrev pub IsTrigger : Bytes → Type 0
IsTrigger name = is_trigger_dir_name name ≡ true

-- A directory that says nothing.
abbrev pub IsPlain : Bytes → Type 0
IsPlain name = (is_trigger_dir_name name ≡ false) × (is_test_or_fixture_dir_name name ≡ false)

-- A name that a library can have.
abbrev pub IsLibrary : Bytes → Type 0
IsLibrary name = (is_trigger_dir_name name ≡ false) × (is_dns_namespace_container_name name ≡ false)

-- The triggers from here on, the library, and a file below it.
pub record TriggerChain (path root : List Bytes) : Type 0 where
  pub triggers : List Bytes
  pub library : Bytes
  pub file : Bytes
  pub inside : List Bytes
  pub all_trigger : All IsTrigger triggers
  pub named : IsLibrary library
  pub path_parts : path ≡ triggers ++ library ∷ file ∷ inside
  pub root_parts : root ≡ triggers ++ library ∷ []

-- The directories before the first trigger, and what follows them.
pub record VendorRoot (path root : List Bytes) : Type 0 where
  pub before : List Bytes
  pub trigger : Bytes
  pub below : List Bytes
  pub chain : List Bytes
  pub all_plain : All IsPlain before
  pub is_trigger : IsTrigger trigger
  pub follows : TriggerChain below chain
  pub path_parts : path ≡ before ++ trigger ∷ below
  pub root_parts : root ≡ before ++ trigger ∷ chain

chain_sound :
    (t path root : List Bytes)
    → chain_root t path ≡ some root
    → (rest : List Bytes) × (root ≡ t ++ rest) × TriggerChain path rest
unfolding chain_root
chain_sound t [] root h = absurd (ground arith)
chain_sound t (subfolder ∷ []) root h = absurd (ground arith)
chain_sound t (subfolder ∷ file ∷ inside) root h =
    elim (Bool-cases (is_trigger_dir_name subfolder)) [
      | inl trigger ↦
          let (rest, e, c) =
            chain_sound (t ++ subfolder ∷ []) (file ∷ inside) root
              (sym (rw (trigger, chain_root)) ∙ h) in
          (
            subfolder ∷ rest,
            e ∙ append_assoc t (subfolder ∷ []) rest,
            record {
              triggers = subfolder ∷ c.triggers;
              library = c.library;
              file = c.file;
              inside = c.inside;
              all_trigger = (trigger, c.all_trigger);
              named = c.named;
              path_parts = ap (λ p. subfolder ∷ p) c.path_parts;
              root_parts = ap (λ p. subfolder ∷ p) c.root_parts;
            },
          )
      | inr plain ↦ elim (Bool-cases (is_dns_namespace_container_name subfolder)) [
        | inl dns ↦
            let nothing : none ≡ some root = sym (rw (plain, dns, chain_root)) ∙ h in
            absurd (ground arith)
        | inr library ↦
            let same : some (t ++ subfolder ∷ []) ≡ some root =
              sym (rw (plain, library, chain_root)) ∙ h in
            (
              subfolder ∷ [],
              ground arith,
              record {
                triggers = [];
                library = subfolder;
                file = file;
                inside = inside;
                all_trigger = tt;
                named = (plain, library);
                path_parts = refl;
                root_parts = refl;
              },
            )
      ]
    ]

root_sound :
    (below : Bool) (acc path root : List Bytes)
    → root_from below acc path ≡ some root
    → (below ≡ false) × ((rest : List Bytes) × (root ≡ acc ++ rest) × VendorRoot path rest)
unfolding root_from
root_sound below acc [] root h = absurd (ground arith)
root_sound below acc (component ∷ []) root h = absurd (ground arith)
root_sound below acc (component ∷ next ∷ path) root h =
    elim (Bool-cases (is_trigger_dir_name component)) [
      | inl trigger ↦ elim (Bool-cases below) [
        | inl fixture ↦
            let nothing : none ≡ some root = sym (rw (trigger, fixture, root_from)) ∙ h in
            absurd (ground arith)
        | inr product ↦
            let (rest, e, c) =
              chain_sound (acc ++ component ∷ []) (next ∷ path) root
                (sym (rw (trigger, product, root_from)) ∙ h) in
            (
              product,
              (
                component ∷ rest,
                e ∙ append_assoc acc (component ∷ []) rest,
                record {
                  before = [];
                  trigger = component;
                  below = next ∷ path;
                  chain = rest;
                  all_plain = tt;
                  is_trigger = trigger;
                  follows = c;
                  path_parts = refl;
                  root_parts = refl;
                },
              ),
            )
      ]
      | inr other ↦
          let test = is_test_or_fixture_dir_name component in
          let (clear, (rest, e, v)) =
            root_sound (below || test) (acc ++ component ∷ []) (next ∷ path) root
              (sym (rw (other, root_from)) ∙ h) in
          let both : (below ≡ false) × (test ≡ false) = ground arith in
          (
            both.0,
            (
              component ∷ rest,
              e ∙ append_assoc acc (component ∷ []) rest,
              record {
                before = component ∷ v.before;
                trigger = v.trigger;
                below = v.below;
                chain = v.chain;
                all_plain = ((other, both.1), v.all_plain);
                is_trigger = v.is_trigger;
                follows = v.follows;
                path_parts = ap (λ p. component ∷ p) v.path_parts;
                root_parts = ap (λ p. component ∷ p) v.root_parts;
              },
            ),
          )
    ]

not_end : (xs : List Bytes) (x : Bytes) (ys : List Bytes) → at_end (xs ++ x ∷ ys) ≡ false
not_end [] x ys = refl
not_end (z ∷ xs) x ys = refl

chain_complete :
    (t triggers : List Bytes) (library file : Bytes) (inside : List Bytes)
    → All IsTrigger triggers
    → IsLibrary library
    → chain_root t (triggers ++ library ∷ file ∷ inside) ≡ some (t ++ (triggers ++ library ∷ []))
unfolding chain_root
chain_complete t [] library file inside h (plain, named) = rw (plain, named, chain_root)
chain_complete t (trigger ∷ triggers) library file inside (ht, h) named =
    rw (not_end triggers library (file ∷ inside), ht, chain_root)
      (chain_complete (t ++ trigger ∷ []) triggers library file inside h named
        ∙ ap some (append_assoc t (trigger ∷ []) (triggers ++ library ∷ [])))

root_complete :
    (acc before : List Bytes) (trigger next : Bytes) (path chain : List Bytes)
    → All IsPlain before
    → IsTrigger trigger
    → TriggerChain (next ∷ path) chain
    → root_from false acc (before ++ trigger ∷ next ∷ path)
      ≡ some (acc ++ (before ++ trigger ∷ chain))
unfolding root_from
root_complete acc [] trigger next path chain h ht c =
    rw (ht, root_from)
      (ap (chain_root (acc ++ trigger ∷ [])) c.path_parts
        ∙ chain_complete (acc ++ trigger ∷ []) c.triggers c.library c.file c.inside c.all_trigger
            c.named
        ∙ ap (λ r. some ((acc ++ trigger ∷ []) ++ r)) (sym c.root_parts)
        ∙ ap some (append_assoc acc (trigger ∷ []) chain))
root_complete acc (component ∷ before) trigger next path chain ((other, test), h) ht c =
    rw (not_end before trigger (next ∷ path), other, test, root_from)
      (root_complete (acc ++ component ∷ []) before trigger next path chain h ht c
        ∙ ap some (append_assoc acc (component ∷ []) (before ++ trigger ∷ chain)))

nonempty_chain : (root : List Bytes) → TriggerChain [] root → ⊥
nonempty_chain root c =
    let clash : true ≡ false =
      ap at_end c.path_parts ∙ not_end c.triggers c.library (c.file ∷ c.inside) in
    ground arith

found :
    (before : List Bytes) (trigger : Bytes) (below chain : List Bytes)
    → All IsPlain before
    → IsTrigger trigger
    → TriggerChain below chain
    → root_from false [] (before ++ trigger ∷ below) ≡ some (before ++ trigger ∷ chain)
found before trigger [] chain h ht c = absurd (nonempty_chain chain c)
found before trigger (next ∷ path) chain h ht c =
    root_complete [] before trigger next path chain h ht c

-- A file belongs to a vendored library exactly when its path has a trigger directory, none of the
-- directories before the first one is that of a test or a fixture, and behind it and the triggers that
-- follow it directly comes a directory, not the file itself, whose name is not that of a namespace
-- container; the root is the path up to that directory.
pub vendor_root_for_iff :
    (path root : List Bytes) → (vendor_root_for path ≡ some root) ↔ VendorRoot path root
unfolding vendor_root_for
vendor_root_for_iff path root = (
  λ h.
      let (clear, (rest, e, v)) = root_sound false [] path root h in
      subst (VendorRoot path) (sym e) v,
  λ v.
      ap (root_from false []) v.path_parts
      ∙ found v.before v.trigger v.below v.chain v.all_plain v.is_trigger v.follows
      ∙ ap some (sym v.root_parts),
)
