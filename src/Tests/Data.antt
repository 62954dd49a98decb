-- ===== src/Tests/Data.antt =====
-- What the runs share: decided facts about all bytes of a text, and components.
use bomwerk.Prelude.{
  ◌≡◌, true, false, [], ◌∷◌, arith, Bytes, IsByte, codes, All, all_of, ltb, Bool-cases, inl, inr,
}
use bomwerk.Core.Model.{Component, Evidence, Source, Confidence, Scope, CpeProvenance}

pub bytes_of : (s : Bytes) → all_of (λ c. ltb c 256) s ≡ true → All IsByte s
bytes_of [] h = tt
bytes_of (c ∷ s) h = elim (Bool-cases (ltb c 256)) [
  | inl e ↦ (ground arith, bytes_of s (ground arith))
  | inr e ↦ absurd (ground arith)
]

abbrev pub weak_zlib : Evidence
weak_zlib = record {
  source = Source.heuristic;
  detail = codes "zlib.h";
  confidence = Confidence.low;
}

abbrev pub strong_zlib : Evidence
strong_zlib = record {
  source = Source.heuristic;
  detail = codes "zlib.h";
  confidence = Confidence.high;
}

abbrev pub manifest_zlib : Evidence
manifest_zlib = record {
  source = Source.manifest;
  detail = codes "conanfile.txt";
  confidence = Confidence.high;
}

abbrev pub zlib : Component
zlib = record {
  name = codes "zlib";
  version = codes "1.3.1";
  supplier = [];
  license = codes "Zlib";
  purl = codes "pkg:conan/zlib@1.3.1";
  cpe = [];
  cpe_provenance = CpeProvenance.unspecified;
  sha256 = [];
  root = codes "third_party/zlib";
  evidence = weak_zlib ∷ strong_zlib ∷ [];
  used_in_build = false;
  scope = Scope.optional;
}

abbrev pub zlib_again : Component
zlib_again = record zlib {
  purl = codes "PKG:Conan/zlib@1.3.1";
  evidence = manifest_zlib ∷ [];
  used_in_build = true;
  scope = Scope.required;
}

abbrev pub nameless : Component
nameless = record zlib { purl = []; name = codes "glue"; version = []; evidence = [] }
