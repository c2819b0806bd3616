-- ===== src/Support/Sketch.antt =====
-- `SupportSessionLimiter` (support-session-limiter.ts). A cell of `timestamps` is the list of its `max`
-- instants, the newest first, where `none` stands for -Infinity; `cells` gives the cell with a number.
-- Instants are whole milliseconds from 0, so `lastNow` starts at 0.
use wickhunter_hub.Prelude.{
  ℕ, zero, suc, ◌+◌, ◌-◌, ◌*◌, ◌/◌, ◌%◌, max, min, String, Bool, true, false, ◌||◌, Option, none,
  some, List, [], ◌∷◌, ◌==◌, leb, if◌then◌else◌, get_elem?, or_else, take, ◌&&◌, str_eq,
}

-- `word` is a 32-bit word of the keyed digest of an address, by its place.
pub record SupportSessionLimiter : Type 0 where
  pub window_ms : ℕ
  pub max_admissions : ℕ
  pub width : ℕ
  pub word : String → ℕ → ℕ

abbrev pub Cell : Type 0
Cell = List (Option ℕ)

pub record SketchState : Type 0 where
  pub cells : ℕ → Cell
  pub last_now : ℕ

pub record SketchDecision : Type 0 where
  pub admitted : Bool
  pub retry_after_seconds : ℕ

abbrev pub empty_cell : ℕ → Cell
empty_cell zero = []
empty_cell (suc n) = none ∷ empty_cell n

unfoldable pub initial : SupportSessionLimiter → SketchState
initial l = record { cells = λ b. empty_cell l.max_admissions; last_now = 0 }

-- The width is a power of two, so `& (width - 1)` is a remainder.
unfoldable pub offsets : SupportSessionLimiter → String → List ℕ
offsets l address = cell 0 ∷ cell 1 ∷ cell 2 ∷ cell 3 ∷ []
  where
    cell : ℕ → ℕ
    cell i = i * l.width + l.word address i % l.width

-- `timestamps[offset]`.
abbrev pub oldest : SupportSessionLimiter → SketchState → ℕ → Option ℕ
oldest l s b = or_else (get_elem? (s.cells b) (l.max_admissions - 1)) none

abbrev pub is_free : SupportSessionLimiter → SketchState → ℕ → ℕ → Bool
is_free l s at b = elim (oldest l s b) [ none ↦ true | some t ↦ leb (t + l.window_ms) at ]

unfoldable pub available : SupportSessionLimiter → SketchState → ℕ → List ℕ → Bool
available l s at [] = false
available l s at (b ∷ bs) = is_free l s at b || available l s at bs

abbrev pub sooner : Option ℕ → Option ℕ → Option ℕ
sooner none b = b
sooner (some a) none = some a
sooner (some a) (some b) = some (min a b)

-- The earliest end of a window among the cells; none stands for Infinity.
unfoldable pub retry_at : SupportSessionLimiter → SketchState → ℕ → List ℕ → Option ℕ
retry_at l s at [] = none
retry_at l s at (b ∷ bs) =
    if is_free l s at b
    then retry_at l s at bs
    else sooner (elim (oldest l s b) [ none ↦ none | some t ↦ some (t + l.window_ms) ])
        (retry_at l s at bs)

-- A cell moves up by one place.
abbrev pub push : SupportSessionLimiter → ℕ → ℕ → SketchState → SketchState
push l at b s = record s {
  cells = λ c. if b == c then some at ∷ take (l.max_admissions - 1) (s.cells c) else s.cells c;
}

unfoldable pub push_all : SupportSessionLimiter → ℕ → List ℕ → SketchState → SketchState
push_all l at [] s = s
push_all l at (b ∷ bs) s = push_all l at bs (push l at b s)

unfoldable pub admit_session :
    SupportSessionLimiter → SketchState → String → ℕ → SketchDecision × SketchState
unfolding offsets available retry_at push_all
admit_session l s address now =
    let at = max now s.last_now in
    let s₁ = record s { last_now = at } in
    let bs = offsets l address in
    if available l s₁ at bs
    then (record { admitted = true; retry_after_seconds = 0 }, push_all l at bs s₁)
    else (
      record {
        admitted = false;
        retry_after_seconds = elim (retry_at l s₁ at bs) [
          | none ↦ 1
          | some t ↦ max 1 ((t - at + 999) / 1000)
        ];
      },
      s₁,
    )

-- The states and the instants at which one address is admitted, the newest first, over a list of calls.
unfoldable pub admissions :
    SupportSessionLimiter → String → List (String × ℕ) → SketchState × List ℕ
admissions l x [] = (initial l, [])
admissions l x ((address, now) ∷ calls) =
    let (s, log) = admissions l x calls in
    let (d, t) = admit_session l s address now in
    (t, if d.admitted && str_eq address x then t.last_now ∷ log else log)
