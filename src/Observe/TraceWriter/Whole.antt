-- ===== src/Observe/TraceWriter/Whole.antt =====
-- The lines of the trace under any interleaving of the processes: `append_trace_line` of
-- src/observe/trace_writer.cpp.
use bomwerk.Prelude.{
  ℕ, ◌≡◌, ◌≢◌, ◌⊎◌, sym, ap, ◌∙◌, Bool, true, false, none, some, List, [], ◌∷◌, ◌++◌, append-nil,
  append_assoc, arith, inl, inr, refl, All, All-append, All-mono, Bytes, Any, Bool-cases, ◌==◌,
  ==_iff,
}
use bomwerk.Observe.TraceWriter.{Process, waiting, writing, unlocking, returned, System, update}

-- The line that a process is called with.
abbrev pub line_in : Process → Bytes
line_in (waiting line) = line
line_in (writing line rest) = line
line_in (unlocking line rest outcome) = line
line_in (returned line outcome) = line

unfoldable pub is_inside : Process → Bool
is_inside (waiting line) = false
is_inside (writing line rest) = true
is_inside (unlocking line rest outcome) = true
is_inside (returned line outcome) = false

unfoldable pub has_returned : Process → Bool
has_returned (waiting line) = false
has_returned (writing line rest) = false
has_returned (unlocking line rest outcome) = false
has_returned (returned line outcome) = true

pub updated :
    (f : ℕ → Process) (i : ℕ) (p : Process) (j : ℕ)
    → ((i ≡ j) × (update f i p j ≡ p)) ⊎ ((i ≢ j) × (update f i p j ≡ f j))
updated f i p j = elim (Bool-cases (i == j)) [
  | inl same ↦ inl ((==_iff i j).0 same, rw same)
  | inr other ↦ inr ((λ e. ground arith), rw other)
]

pub update_same : (f : ℕ → Process) (i : ℕ) (p : Process) → update f i p i ≡ p
update_same f i p = let same : (i == i) ≡ true = ground arith in rw same

pub writing_inside : (p : Process) (line rest : Bytes) → p ≡ writing line rest → is_inside p ≡ true
unfolding is_inside
writing_inside p line rest e = ap is_inside e

pub unlocking_inside :
    (p : Process) (line rest : Bytes) (outcome : Bool)
    → p ≡ unlocking line rest outcome
    → is_inside p ≡ true
unfolding is_inside
unlocking_inside p line rest outcome e = ap is_inside e

pub inside_not_returned : (p : Process) → is_inside p ≡ true → has_returned p ≡ false
unfolding is_inside has_returned
inside_not_returned (waiting line) h = refl
inside_not_returned (writing line rest) h = refl
inside_not_returned (unlocking line rest outcome) h = refl
inside_not_returned (returned line outcome) h = absurd (ground arith)

waiting_outside : (p : Process) (line : Bytes) → p ≡ waiting line → is_inside p ≡ false
unfolding is_inside
waiting_outside p line e = ap is_inside e

module _ (line_of : ℕ → Bytes) where
  -- What one process has put into the file, now that it has returned: a front of its line.
  pub record Piece : Type 0 where
    pub owner : ℕ
    pub front : Bytes
    pub back : Bytes
    pub whole : line_of owner ≡ front ++ back

  abbrev pub fronts : List Piece → Bytes
  fronts [] = []
  fronts (p ∷ pieces) = p.front ++ fronts pieces

  -- The whole line of process `j`.
  abbrev pub IsWhole : ℕ → Piece → Type 0
  IsWhole j p = (p.owner ≡ j) × (p.front ≡ line_of j)

  -- No process has two pieces.
  abbrev pub AllDistinct : List Piece → Type 0
  AllDistinct [] = Unit
  AllDistinct (p ∷ pieces) = All (λ q. p.owner ≢ q.owner) pieces × AllDistinct pieces

  pub distinct_append :
      (pieces : List Piece) (y : Piece)
      → AllDistinct pieces
      → All (λ p. p.owner ≢ y.owner) pieces
      → AllDistinct (pieces ++ y ∷ [])
  distinct_append [] y h k = (tt, tt)
  distinct_append (p ∷ pieces) y (hp, h) (kp, k) = (
    All-append (λ q. p.owner ≢ q.owner) pieces (y ∷ []) hp (kp, tt),
    distinct_append pieces y h k,
  )

  pub Any-append_left : (P : Piece → Type 0) (xs ys : List Piece) → Any P xs → Any P (xs ++ ys)
  Any-append_left P [] ys h = absurd h
  Any-append_left P (x ∷ xs) ys (inl h) = inl h
  Any-append_left P (x ∷ xs) ys (inr h) = inr (Any-append_left P xs ys h)

  pub Any-append_last :
      (P : Piece → Type 0) (xs : List Piece) (y : Piece) → P y → Any P (xs ++ y ∷ [])
  Any-append_last P [] y h = inl h
  Any-append_last P (x ∷ xs) y h = inr (Any-append_last P xs y h)

  pub fronts-append : (xs : List Piece) (y : Piece) → fronts (xs ++ y ∷ []) ≡ fronts xs ++ y.front
  fronts-append [] y = append-nil y.front
  fronts-append (x ∷ xs) y =
      ap (λ t. x.front ++ t) (fronts-append xs y) ∙ sym (append_assoc x.front (fronts xs) y.front)

  pub record Inv (start : Bytes) (s : System) : Type 0 where
    pub pieces : List Piece
    pub current : Bytes
    pub content : s.file ≡ start ++ (fronts pieces ++ current)
    pub own_line : (j : ℕ) → line_in (s.process j) ≡ line_of j
    pub alone : (j : ℕ) → is_inside (s.process j) ≡ true → s.holder ≡ some j
    pub held : (j : ℕ) → s.holder ≡ some j → is_inside (s.process j) ≡ true
    pub writer :
        (j : ℕ) (line rest : Bytes) → s.process j ≡ writing line rest → line ≡ current ++ rest
    pub leaver :
        (j : ℕ) (line rest : Bytes) (outcome : Bool)
        → s.process j ≡ unlocking line rest outcome
        → (line ≡ current ++ rest) × (outcome ≡ true → rest ≡ [])
    pub free : s.holder ≡ none → current ≡ []
    pub kept : (j : ℕ) (line : Bytes) → s.process j ≡ returned line true → Any (IsWhole j) pieces
    pub past : All (λ p. has_returned (s.process p.owner) ≡ true) pieces
    pub once : AllDistinct pieces

  -- Each process keeps its line.
  pub own_kept :
      (f : ℕ → Process) (i : ℕ) (p : Process)
      → ((j : ℕ) → line_in (f j) ≡ line_of j)
      → line_in p ≡ line_in (f i)
      → (j : ℕ) → line_in (update f i p j) ≡ line_of j
  own_kept f i p own same j = elim (updated f i p j) [
    | inl (ij, e) ↦ ap line_in e ∙ same ∙ own i ∙ ap line_of ij
    | inr (ij, e) ↦ ap line_in e ∙ own j
  ]

  -- A process that has not returned owns no piece.
  pub owners_other :
      (f : ℕ → Process) (i : ℕ) (pieces : List Piece)
      → All (λ p. has_returned (f p.owner) ≡ true) pieces
      → has_returned (f i) ≡ false
      → All (λ p. p.owner ≢ i) pieces
  owners_other f i pieces past here =
      All-mono (λ p. has_returned (f p.owner) ≡ true) (λ p. p.owner ≢ i) pieces
        (λ q h same.
          let clash : true ≡ false = sym h ∙ ap (λ j. has_returned (f j)) same ∙ here in
          ground arith)
        past

  pub past_kept :
      (f : ℕ → Process) (i : ℕ) (p : Process) (pieces : List Piece)
      → All (λ q. has_returned (f q.owner) ≡ true) pieces
      → has_returned (f i) ≡ false
      → All (λ q. has_returned (update f i p q.owner) ≡ true) pieces
  past_kept f i p pieces past here =
      All-mono (λ q. has_returned (f q.owner) ≡ true)
        (λ q. has_returned (update f i p q.owner) ≡ true) pieces
        (λ q h. elim (updated f i p q.owner) [
          | inl (same, e) ↦
              let clash : true ≡ false = sym h ∙ ap (λ j. has_returned (f j)) (sym same) ∙ here in
              absurd (ground arith)
          | inr (other, e) ↦ ap has_returned e ∙ h
        ])
        past

module _ {line_of : ℕ → Bytes} {start : Bytes} {s : System} (v : Inv line_of start s) where
  -- A second process inside is the same one.
  pub only : (i j : ℕ) → is_inside (s.process i) ≡ true → is_inside (s.process j) ≡ true → i ≡ j
  only i j hi hj = ground (arith, v.alone i hi, v.alone j hj)

  pub lock-Inv :
      (i : ℕ) (line : Bytes)
      → s.process i ≡ waiting line
      → s.holder ≡ none
      → Inv line_of start
          (record s { holder = some i; process = update s.process i (writing line line) })
  unfolding is_inside has_returned
  lock-Inv i line at unheld =
      let new = writing line line in
      let nobody : (j : ℕ) → is_inside (s.process j) ≡ true → ⊥ =
        λ j h. ground (arith, v.alone j h) in
      record {
        pieces = v.pieces;
        current = v.current;
        content = v.content;
        alone = λ j h. elim (updated s.process i new j) [
          | inl (same, e) ↦ ap some same
          | inr (other, e) ↦ absurd (nobody j (ap is_inside (sym e) ∙ h))
        ];
        writer = λ j l r h. elim (updated s.process i new j) [
          | inl (same, e) ↦
              let values : writing line line ≡ writing l r = sym e ∙ h in
              let pair : (line ≡ l) × (line ≡ r) = ground arith in
              sym pair.0 ∙ pair.1 ∙ ap (λ t. t ++ r) (sym (v.free unheld))
          | inr (other, e) ↦ absurd (nobody j (writing_inside (s.process j) l r (sym e ∙ h)))
        ];
        leaver = λ j l r b h. elim (updated s.process i new j) [
          | inl (same, e) ↦
              let values : writing line line ≡ unlocking l r b = sym e ∙ h in absurd (ground arith)
          | inr (other, e) ↦ absurd (nobody j (unlocking_inside (s.process j) l r b (sym e ∙ h)))
        ];
        own_line = own_kept line_of s.process i new v.own_line (sym (ap line_in at));
        past = past_kept line_of s.process i new v.pieces v.past (ap has_returned at);
        once = v.once;
        held = λ j h. elim (updated s.process i new j) [
          | inl (same, e) ↦ ap is_inside e
          | inr (other, e) ↦ absurd (ground (arith, h))
        ];
        free = λ h. absurd (ground arith);
        kept = λ j l h. elim (updated s.process i new j) [
          | inl (same, e) ↦
              let values : writing line line ≡ returned l true = sym e ∙ h in absurd (ground arith)
          | inr (other, e) ↦ v.kept j l (sym e ∙ h)
        ];
      }

  pub lock_fails-Inv :
      (i : ℕ) (line : Bytes)
      → s.process i ≡ waiting line
      → Inv line_of start (record s { process = update s.process i (returned line false) })
  unfolding is_inside has_returned
  lock_fails-Inv i line at =
      let new = returned line false in
      record {
        pieces = v.pieces;
        current = v.current;
        content = v.content;
        alone = λ j h. elim (updated s.process i new j) [
          | inl (same, e) ↦ absurd (ground (arith, ap is_inside (sym e) ∙ h))
          | inr (other, e) ↦ v.alone j (ap is_inside (sym e) ∙ h)
        ];
        writer = λ j l r h. elim (updated s.process i new j) [
          | inl (same, e) ↦
              let values : returned line false ≡ writing l r = sym e ∙ h in absurd (ground arith)
          | inr (other, e) ↦ v.writer j l r (sym e ∙ h)
        ];
        leaver = λ j l r b h. elim (updated s.process i new j) [
          | inl (same, e) ↦
              let values : returned line false ≡ unlocking l r b = sym e ∙ h in
              absurd (ground arith)
          | inr (other, e) ↦ v.leaver j l r b (sym e ∙ h)
        ];
        own_line = own_kept line_of s.process i new v.own_line (sym (ap line_in at));
        past = past_kept line_of s.process i new v.pieces v.past (ap has_returned at);
        once = v.once;
        held = λ j h. elim (updated s.process i new j) [
          | inl (same, e) ↦
              let clash : false ≡ true =
                sym (ap is_inside at) ∙ ap (λ k. is_inside (s.process k)) same ∙ v.held j h in
              absurd (ground arith)
          | inr (other, e) ↦ ap is_inside e ∙ v.held j h
        ];
        free = v.free;
        kept = λ j l h. elim (updated s.process i new j) [
          | inl (same, e) ↦
              let values : returned line false ≡ returned l true = sym e ∙ h in
              absurd (ground arith)
          | inr (other, e) ↦ v.kept j l (sym e ∙ h)
        ];
      }

  -- The holder of the lock moves on, and appends some bytes.
  pub inside-Inv :
      (i : ℕ) (p : Process) (bytes : Bytes)
      → is_inside (s.process i) ≡ true
      → ((l r : Bytes) → p ≡ writing l r → l ≡ (v.current ++ bytes) ++ r)
      → ((l r : Bytes) (b : Bool)
          → p ≡ unlocking l r b
          → (l ≡ (v.current ++ bytes) ++ r) × (b ≡ true → r ≡ []))
      → is_inside p ≡ true
      → line_in p ≡ line_in (s.process i)
      → Inv line_of start (record s { file = s.file ++ bytes; process = update s.process i p })
  unfolding is_inside has_returned
  inside-Inv i p bytes inside to_write to_unlock still same_line =
      let apart : (j : ℕ) → i ≢ j → is_inside (s.process j) ≡ true → ⊥ =
        λ j other h. other (only i j inside h) in
      record {
        pieces = v.pieces;
        current = v.current ++ bytes;
        content =
            ap (λ t. t ++ bytes) v.content
            ∙ append_assoc start (fronts line_of v.pieces ++ v.current) bytes
            ∙ ap (λ t. start ++ t) (append_assoc (fronts line_of v.pieces) v.current bytes);
        alone = λ j h. elim (updated s.process i p j) [
          | inl (same, e) ↦ v.alone i inside ∙ ap some same
          | inr (other, e) ↦ absurd (apart j other (ap is_inside (sym e) ∙ h))
        ];
        writer = λ j l r h. elim (updated s.process i p j) [
          | inl (same, e) ↦ to_write l r (sym e ∙ h)
          | inr (other, e) ↦ absurd (apart j other (writing_inside (s.process j) l r (sym e ∙ h)))
        ];
        leaver = λ j l r b h. elim (updated s.process i p j) [
          | inl (same, e) ↦ to_unlock l r b (sym e ∙ h)
          | inr (other, e) ↦
              absurd (apart j other (unlocking_inside (s.process j) l r b (sym e ∙ h)))
        ];
        own_line = own_kept line_of s.process i p v.own_line same_line;
        past =
            past_kept line_of s.process i p v.pieces v.past
              (inside_not_returned (s.process i) inside);
        once = v.once;
        held = λ j h. elim (updated s.process i p j) [
          | inl (same, e) ↦ ap is_inside e ∙ still
          | inr (other, e) ↦ absurd (ground (arith, h, v.alone i inside))
        ];
        free = λ h. absurd (ground (arith, v.alone i inside));
        kept = λ j l h. elim (updated s.process i p j) [
          | inl (same, e) ↦ absurd (ground (arith, ap is_inside (sym e ∙ h)))
          | inr (other, e) ↦ v.kept j l (sym e ∙ h)
        ];
      }
