-- ===== src/Vuln/Cpe/Query.antt =====
-- The two percent encoders, of src/vuln/cpe.cpp and src/core/percent.cpp.
use bomwerk.Prelude.{
  ◌≡◌, refl, ap₂, true, [], ◌∷◌, ◌++◌, Bytes, IsByte, All, equal, equal_iff, holds_below,
  holds_below_lem,
}
use bomwerk.Core.Percent.{encoded_char, percent_encode}
use bomwerk.Vuln.Cpe.{encoded_query_char, percent_encode_query_value}

query_table : holds_below 256 (λ c. equal (encoded_query_char c) (encoded_char c)) ≡ true
unfolding holds_below encoded_query_char encoded_char equal
query_table = refl

-- On a text of bytes the encoder of query values and the encoder of purl parts agree.
pub percent_encode_query_value-percent_encode :
    (s : Bytes) → All IsByte s → percent_encode_query_value s ≡ percent_encode s
unfolding percent_encode_query_value percent_encode
percent_encode_query_value-percent_encode [] h = refl
percent_encode_query_value-percent_encode (c ∷ s) (hc, h) =
    ap₂ (λ x y. x ++ y)
      ((equal_iff (encoded_query_char c) (encoded_char c)).0
        (holds_below_lem 256 (λ c. equal (encoded_query_char c) (encoded_char c)) c query_table hc))
      (percent_encode_query_value-percent_encode s h)
