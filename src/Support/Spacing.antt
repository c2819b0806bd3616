-- ===== src/Support/Spacing.antt =====
-- The sketch never lets an address in more often than a limiter of its own would
-- (support-session-limiter.ts).
use wickhunter_hub.Prelude.{
  ℕ, zero, suc, ◌+◌, ◌-◌, ◌≤◌, ◌<◌, ◌≡◌, refl, sym, ap, ◌∙◌, subst, max, String, Bool, true, false,
  ◌||◌, ◌&&◌, none, some, List, [], ◌∷◌, ◌==◌, if◌then◌else◌, get_elem?, take, length, str_eq,
  eq_iff, arith, Bool-cases, inl, inr,
}
use wickhunter_hub.Support.Sketch.{
  SupportSessionLimiter, SketchState, SketchDecision, Cell, empty_cell, initial, offsets, is_free,
  available, push, push_all, admit_session, admissions,
}

-- Every instant is at least the one after it, and the first is at most `t`.
abbrev Falls : ℕ → List ℕ → Type 0
Falls t [] = Unit
Falls t (h ∷ log) = (h ≤ t) × Falls h log

-- The instants of a cell fall up to the first -Infinity.
abbrev Desc : ℕ → Cell → Type 0
Desc t [] = Unit
Desc t (none ∷ c) = Unit
Desc t (some u ∷ c) = (u ≤ t) × Desc u c

-- Place by place the cell is at least as late as the log.
abbrev Covers : Cell → List ℕ → Type 0
Covers [] log = Unit
Covers (u ∷ c) [] = Unit
Covers (none ∷ c) (h ∷ log) = ⊥
Covers (some u ∷ c) (h ∷ log) = (h ≤ u) × Covers c log

Falls-later : (t u : ℕ) (log : List ℕ) → t ≤ u → Falls t log → Falls u log
Falls-later t u [] h f = tt
Falls-later t u (x ∷ log) h f = (omega (arith, h, f.0), f.1)

Desc-later : (t u : ℕ) (c : Cell) → t ≤ u → Desc t c → Desc u c
Desc-later t u [] h d = tt
Desc-later t u (none ∷ c) h d = tt
Desc-later t u (some x ∷ c) h d = (omega (arith, h, d.0), d.1)

Desc-take : (n t : ℕ) (c : Cell) → Desc t c → Desc t (take n c)
Desc-take zero t c d = tt
Desc-take (suc n) t [] d = tt
Desc-take (suc n) t (none ∷ c) d = tt
Desc-take (suc n) t (some u ∷ c) d = (d.0, Desc-take n u c d.1)

Covers-take : (n : ℕ) (c : Cell) (log : List ℕ) → Covers c log → Covers (take n c) log
Covers-take zero c log h = tt
Covers-take (suc n) [] log h = tt
Covers-take (suc n) (u ∷ c) [] h = tt
Covers-take (suc n) (none ∷ c) (x ∷ log) h = absurd h
Covers-take (suc n) (some u ∷ c) (x ∷ log) h = (h.0, Covers-take n c log h.1)

-- Another admission moves a cell up, which only makes it later.
Covers-shift :
    (t : ℕ) (c : Cell) (log : List ℕ)
    → Desc t c
    → Falls t log
    → Covers c log
    → Covers (some t ∷ c) log
Covers-shift t c [] d f h = tt
Covers-shift t [] (x ∷ log) d f h = (f.0, tt)
Covers-shift t (none ∷ c) (x ∷ log) d f h = absurd h
Covers-shift t (some u ∷ c) (x ∷ log) d f h =
    (f.0, Covers-shift u c log d.1 (Falls-later x u log h.0 f.1) h.1)

Covers-get :
    (n t : ℕ) (c : Cell) (log : List ℕ)
    → Covers c log
    → n < length c
    → get_elem? log n ≡ some t
    → (u : ℕ) × (get_elem? c n ≡ some (some u)) × (t ≤ u)
Covers-get n t [] log h l e = absurd (omega (arith, l))
Covers-get n t (u ∷ c) [] h l e = cc
Covers-get n t (none ∷ c) (x ∷ log) h l e = absurd h
Covers-get zero t (some u ∷ c) (x ∷ log) h l e = (u, refl, ground (arith, e, h.0))
Covers-get (suc n) t (some u ∷ c) (x ∷ log) h l e = Covers-get n t c log h.1 (omega (arith, l)) e

length-take_lt : (n : ℕ) (c : Cell) → n < length c → length (take n c) ≡ n
length-take_lt n [] h = absurd (omega (arith, h))
length-take_lt zero (u ∷ c) h = refl
length-take_lt (suc n) (u ∷ c) h = ap suc (length-take_lt n c (omega (arith, h)))

abbrev among : ℕ → List ℕ → Bool
among b [] = false
among b (c ∷ bs) = c == b || among b bs

module _ (l : SupportSessionLimiter) (room : 1 ≤ l.max_admissions) where
  record IsEven (s : SketchState) : Type 0 where
    falling : (b : ℕ) → Desc s.last_now (s.cells b)
    full : (b : ℕ) → length (s.cells b) ≡ l.max_admissions

  push-IsEven : (b : ℕ) (s : SketchState) → IsEven s → IsEven (push l s.last_now b s)
  push-IsEven b s v = record {
    falling = λ c. elim (Bool-cases (b == c)) [
      | inl here ↦
          rw here
            (omega arith, Desc-take (l.max_admissions - 1) s.last_now (s.cells c) (v.falling c))
      | inr there ↦ rw there (v.falling c)
    ];
    full = λ c. elim (Bool-cases (b == c)) [
      | inl here ↦ rw here (
          omega (
            arith,
            room,
            length-take_lt (l.max_admissions - 1) (s.cells c) (omega (arith, room, v.full c)),
          ))
      | inr there ↦ rw there (v.full c)
    ];
  }

  push-Covers :
      (b c : ℕ) (s : SketchState) (log : List ℕ)
      → IsEven s
      → Falls s.last_now log
      → Covers (s.cells c) log
      → Covers ((push l s.last_now b s).cells c) log
  push-Covers b c s log v f h = elim (Bool-cases (b == c)) [
    | inl here ↦ rw here (
        Covers-take (suc (l.max_admissions - 1)) (some s.last_now ∷ s.cells c) log
          (Covers-shift s.last_now (s.cells c) log (v.falling c) f h))
    | inr there ↦ rw there h
  ]

  push-Covers_self :
      (b c : ℕ) (s : SketchState) (log : List ℕ)
      → b == c ≡ true
      → Covers (s.cells c) log
      → Covers ((push l s.last_now b s).cells c) (s.last_now ∷ log)
  push-Covers_self b c s log here h =
      rw here (omega arith, Covers-take (l.max_admissions - 1) (s.cells c) log h)

  push_all-keeps :
      (bs : List ℕ) (s : SketchState)
      → IsEven s
      → IsEven (push_all l s.last_now bs s) × ((push_all l s.last_now bs s).last_now ≡ s.last_now)
  unfolding push_all
  push_all-keeps [] s v = (v, refl)
  push_all-keeps (b ∷ bs) s v = push_all-keeps bs (push l s.last_now b s) (push-IsEven b s v)

  push_all-Covers :
      (bs : List ℕ) (c : ℕ) (s : SketchState) (log : List ℕ)
      → IsEven s
      → Falls s.last_now log
      → Covers (s.cells c) log
      → Covers ((push_all l s.last_now bs s).cells c) log
  unfolding push_all
  push_all-Covers [] c s log v f h = h
  push_all-Covers (b ∷ bs) c s log v f h =
      push_all-Covers bs c (push l s.last_now b s) log (push-IsEven b s v) f
        (push-Covers b c s log v f h)

  push_all-Covers_self :
      (bs : List ℕ) (c : ℕ) (s : SketchState) (log : List ℕ)
      → IsEven s
      → Falls s.last_now log
      → among c bs ≡ true
      → Covers (s.cells c) log
      → Covers ((push_all l s.last_now bs s).cells c) (s.last_now ∷ log)
  unfolding push_all
  push_all-Covers_self [] c s log v f m h = cc
  push_all-Covers_self (b ∷ bs) c s log v f m h = elim (Bool-cases (b == c)) [
    | inl here ↦
        push_all-Covers bs c (push l s.last_now b s) (s.last_now ∷ log) (push-IsEven b s v)
          (omega arith, f) (push-Covers_self b c s log here h)
    | inr there ↦
        push_all-Covers_self bs c (push l s.last_now b s) log (push-IsEven b s v) f
          (ground (arith, there, m)) (push-Covers b c s log v f h)
  ]

  available-spaced :
      (bs : List ℕ) (s : SketchState) (log : List ℕ) (at t : ℕ)
      → IsEven s
      → ((c : ℕ) → among c bs ≡ true → Covers (s.cells c) log)
      → available l s at bs ≡ true
      → get_elem? log (l.max_admissions - 1) ≡ some t
      → t + l.window_ms ≤ at
  unfolding available
  available-spaced [] s log at t v h a e = cc
  available-spaced (b ∷ bs) s log at t v h a e = elim (Bool-cases (is_free l s at b)) [
    | inl free ↦
        let (u, stored, later) =
          Covers-get (l.max_admissions - 1) t (s.cells b) log (h b (ground arith))
            (omega (arith, room, v.full b)) e in
        ground (arith, stored, later, free)
    | inr taken ↦
        available-spaced bs s log at t v (λ c m. h c (ground (arith, m))) (ground (arith, a, taken))
          e
  ]

-- Each admission stands at least a window after the one that is `n` places before it.
abbrev pub Spaced : ℕ → ℕ → List ℕ → Type 0
Spaced window n [] = Unit
Spaced window n (h ∷ log) =
    ((t : ℕ) → get_elem? log (n - 1) ≡ some t → t + window ≤ h) × Spaced window n log

Covers-none : (c : Cell) → Covers c []
Covers-none [] = tt
Covers-none (u ∷ c) = tt

empty_cell-Desc : (n t : ℕ) → Desc t (empty_cell n)
empty_cell-Desc zero t = tt
empty_cell-Desc (suc n) t = tt

length-empty_cell : (n : ℕ) → length (empty_cell n) ≡ n
length-empty_cell zero = refl
length-empty_cell (suc n) = ap suc (length-empty_cell n)

module _ (l : SupportSessionLimiter) (room : 1 ≤ l.max_admissions) (x : String) where
  record IsKept (s : SketchState) (log : List ℕ) : Type 0 where
    even : IsEven l room s
    falls : Falls s.last_now log
    covers : (c : ℕ) → among c (offsets l x) ≡ true → Covers (s.cells c) log
    spaced : Spaced l.window_ms l.max_admissions log

  abbrev now_at : SketchState → ℕ → SketchState
  now_at s now = record s { last_now = max now s.last_now }

  now_at-IsKept :
      (s : SketchState) (log : List ℕ) (now : ℕ) → IsKept s log → IsKept (now_at s now) log
  now_at-IsKept s log now v = record {
    even = record {
      falling = λ b.
          Desc-later s.last_now (max now s.last_now) (s.cells b) (omega arith) (v.even.falling b);
      full = v.even.full;
    };
    falls = Falls-later s.last_now (max now s.last_now) log (omega arith) v.falls;
    covers = v.covers;
    spaced = v.spaced;
  }

  admitted-IsKept :
      (s : SketchState) (log : List ℕ)
      → IsKept s log
      → available l s s.last_now (offsets l x) ≡ true
      → IsKept
          (push_all l s.last_now (offsets l x) s)
          ((push_all l s.last_now (offsets l x) s).last_now ∷ log)
  admitted-IsKept s log v free =
      let (even, kept) = push_all-keeps l room (offsets l x) s v.even in
      record {
        even = even;
        falls = (omega arith, Falls-later s.last_now _ log (omega (arith, kept)) v.falls);
        covers = λ c m.
            subst (λ n. Covers ((push_all l s.last_now (offsets l x) s).cells c) (n ∷ log))
              (sym kept)
              (push_all-Covers_self l room (offsets l x) c s log v.even v.falls m (v.covers c m));
        spaced = (
          (λ t e. omega (
            arith,
            kept,
            available-spaced l room (offsets l x) s log s.last_now t v.even v.covers free e,
          )),
          v.spaced,
        );
      }

  pushed-IsKept :
      (bs : List ℕ) (s : SketchState) (log : List ℕ)
      → IsKept s log
      → IsKept (push_all l s.last_now bs s) log
  pushed-IsKept bs s log v =
      let (even, kept) = push_all-keeps l room bs s v.even in
      record {
        even = even;
        falls = Falls-later s.last_now _ log (omega (arith, kept)) v.falls;
        covers = λ c m. push_all-Covers l room bs c s log v.even v.falls (v.covers c m);
        spaced = v.spaced;
      }

  abbrev logged : String → SketchDecision → SketchState → List ℕ → List ℕ
  logged address d t log = if d.admitted && str_eq address x then t.last_now ∷ log else log

  step-IsKept :
      (s : SketchState) (log : List ℕ) (address : String) (now : ℕ)
      → IsKept s log
      → IsKept
          (admit_session l s address now).1
          (logged address (admit_session l s address now).0 (admit_session l s address now).1 log)
  unfolding admit_session
  step-IsKept s log address now v =
      let s₁ = now_at s now in
      let v₁ = now_at-IsKept s log now v in
      elim (Bool-cases (available l s₁ s₁.last_now (offsets l address))) [
        | inr refused ↦ rw refused v₁
        | inl free ↦ elim (Bool-cases (str_eq address x)) [
          | inl same ↦
              let is_x = (eq_iff address x).0 same in
              rw (free, same)
                (subst
                  (λ a.
                    IsKept (push_all l s₁.last_now (offsets l a) s₁)
                      ((push_all l s₁.last_now (offsets l a) s₁).last_now ∷ log))
                  (sym is_x)
                  (admitted-IsKept s₁ log v₁
                    (ap (λ a. available l s₁ s₁.last_now (offsets l a)) (sym is_x) ∙ free)))
          | inr other ↦ rw (free, other) (pushed-IsKept (offsets l address) s₁ log v₁)
        ]
      ]

  admissions-IsKept :
      (calls : List (String × ℕ)) → IsKept (admissions l x calls).0 (admissions l x calls).1
  unfolding admissions initial
  admissions-IsKept [] = record {
    even = record {
      falling = λ b. empty_cell-Desc l.max_admissions 0;
      full = λ b. length-empty_cell l.max_admissions;
    };
    falls = tt;
    covers = λ c m. Covers-none (empty_cell l.max_admissions);
    spaced = tt;
  }
  admissions-IsKept ((address, now) ∷ calls) =
      step-IsKept (admissions l x calls).0 (admissions l x calls).1 address now
        (admissions-IsKept calls)

  -- Whatever addresses share its cells, an address is never let in more often than it may be: over any
  -- calls, the latest first, each of its admissions comes at least a window after the one that is `max`
  -- places before it, where `max` is at least 1.
  pub admissions-Spaced :
      (calls : List (String × ℕ)) → Spaced l.window_ms l.max_admissions (admissions l x calls).1
  admissions-Spaced calls = (admissions-IsKept calls).spaced
