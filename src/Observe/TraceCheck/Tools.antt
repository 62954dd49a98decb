-- ===== src/Observe/TraceCheck/Tools.antt =====
-- The counts per tool of src/observe/trace_check.cpp, for calls in one order and in another.
use mathlib.Core.List.{Permᴰ}
use bomwerk.Prelude.{
  ℕ, ◌≡◌, refl, ap, ◌∙◌, List, [], ◌∷◌, arith, Bytes, equal_iff, less-IsOrder, lt_irrefl,
}
use bomwerk.Observe.TraceCheck.{count_tool}

-- The calls of a trace, one after the other.
unfoldable pub count_tools : List Bytes → List (Bytes × ℕ) → List (Bytes × ℕ)
unfolding count_tool
count_tools [] entries = entries
count_tools (tool_name ∷ tool_names) entries = count_tools tool_names (count_tool tool_name entries)

count_comm :
    (a b : Bytes) (entries : List (Bytes × ℕ))
    → count_tool a (count_tool b entries) ≡ count_tool b (count_tool a entries)
unfolding count_tool
count_comm a b [] =
    ground (arith, equal_iff a b, equal_iff b a, less-IsOrder.asym a b, less-IsOrder.connex a b)
count_comm a b ((name, n) ∷ entries) = ground (
  arith,
  equal_iff a b,
  equal_iff b a,
  equal_iff name a,
  equal_iff name b,
  lt_irrefl less-IsOrder a,
  less-IsOrder.asym a b,
  less-IsOrder.connex a b,
  less-IsOrder.trans a b name,
  less-IsOrder.trans b a name,
  count_comm a b entries,
)

count_tools_comm :
    (tool_names : List Bytes) (a b : Bytes) (entries : List (Bytes × ℕ))
    → count_tools (a ∷ b ∷ tool_names) entries ≡ count_tools (b ∷ a ∷ tool_names) entries
unfolding count_tools
count_tools_comm tool_names a b entries = ap (count_tools tool_names) (count_comm b a entries)

pub count_tools-permuted :
    {xs ys : List Bytes}
    → Permᴰ xs ys
    → (entries : List (Bytes × ℕ)) → count_tools xs entries ≡ count_tools ys entries
unfolding count_tools
count_tools-permuted Permᴰ.nil entries = refl
count_tools-permuted (Permᴰ.cons {b = b} {l₁ = xs} e d) entries =
    ap (λ t. count_tools xs (count_tool t entries)) e
    ∙ count_tools-permuted d (count_tool b entries)
count_tools-permuted (Permᴰ.swap {a = a} {b = b} {a' = c} {l = xs} e h) entries =
    count_tools_comm xs a b entries
    ∙ ap (λ t. count_tools xs (count_tool a (count_tool t entries))) h
    ∙ ap (λ t. count_tools xs (count_tool t (count_tool c entries))) e
count_tools-permuted (Permᴰ.trans d e) entries =
    count_tools-permuted d entries ∙ count_tools-permuted e entries
