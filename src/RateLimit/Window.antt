-- ===== src/RateLimit/Window.antt =====
-- The deque of instants that both limiters keep for a client.
use native.Mathlib.Omega.{arith}
use manaai.Prelude.{
  ℕ, ◌+◌, ◌-◌, ◌/◌, ◌≤◌, ◌≡◌, refl, Bool, true, not, List, [], ◌∷◌, ◌++◌, ltb, if◌then◌else◌,
  length, filter, count, sym, ap, ◌∙◌, All, All-append, filter-append,
}
use Prim.Native.Nat.{max}

abbrev pub ticks_per_second : ℕ
ticks_per_second = 1000000000

-- `t > now - window`: the instant still counts.
abbrev pub live : ℕ → ℕ → ℕ → Bool
live window now t = ltb now (t + window)

-- `while attempts and attempts[0] <= cutoff: attempts.popleft()`.
unfoldable pub drop_stale : ℕ → ℕ → List ℕ → List ℕ
drop_stale window now [] = []
drop_stale window now (t ∷ ts) =
    let rest = drop_stale window now ts in if live window now t then t ∷ ts else rest

-- `not hits or hits[-1] <= cutoff`, the test of the sweep.
unfoldable pub is_stale : ℕ → ℕ → List ℕ → Bool
is_stale window now [] = true
is_stale window now (t ∷ []) = not (live window now t)
is_stale window now (t ∷ u ∷ ts) = is_stale window now (u ∷ ts)

-- `max(int(window - (now - oldest)), 1)`, in whole seconds.
unfoldable pub retry_after : ℕ → ℕ → ℕ → ℕ
retry_after window now oldest = max ((oldest + window - now) / ticks_per_second) 1

-- Instants of a clock that does not go back: ascending from `lo`.
abbrev pub From : ℕ → List ℕ → Type 0
From lo [] = Unit {0}
From lo (t ∷ ts) = (lo ≤ t) × From t ts

filter-live-From :
    (window now lo : ℕ) (ts : List ℕ)
    → live window now lo ≡ true
    → From lo ts
    → filter (live window now) ts ≡ ts
filter-live-From window now lo [] h o = refl
filter-live-From window now lo (t ∷ ts) h o =
    ground (arith, filter-live-From window now t ts (ground arith) o.1)

-- On an ascending deque the loop that pops from the front drops all that is stale.
pub drop_stale-eq-filter :
    (window now lo : ℕ) (ts : List ℕ)
    → From lo ts
    → drop_stale window now ts ≡ filter (live window now) ts
unfolding drop_stale
drop_stale-eq-filter window now lo [] o = refl
drop_stale-eq-filter window now lo (t ∷ ts) o = ground (
  arith,
  drop_stale-eq-filter window now t ts o.1,
  λ (h : live window now t ≡ true). filter-live-From window now t ts h o.1,
)

From-mono : (lo hi : ℕ) (ts : List ℕ) → lo ≤ hi → From hi ts → From lo ts
From-mono lo hi [] h o = tt
From-mono lo hi (t ∷ ts) h o = (omega arith, o.1)

pub From-drop_stale :
    (window now lo : ℕ) (ts : List ℕ) → From lo ts → From lo (drop_stale window now ts)
unfolding drop_stale
From-drop_stale window now lo [] o = tt
From-drop_stale window now lo (t ∷ ts) o =
    ground
      (arith, From-mono lo t (drop_stale window now ts) o.0, From-drop_stale window now t ts o.1)

pub From-snoc :
    (now lo : ℕ) (ts : List ℕ)
    → lo ≤ now
    → All (λ t. t ≤ now) ts
    → From lo ts
    → From lo (ts ++ now ∷ [])
From-snoc now lo [] l a o = (l, tt)
From-snoc now lo (t ∷ ts) l a o = (o.0, From-snoc now t ts a.0 a.1 o.1)

-- What is stale stays stale.
pub filter-filter-live :
    (window now later : ℕ) (ts : List ℕ)
    → now ≤ later
    → filter (live window later) (filter (live window now) ts) ≡ filter (live window later) ts
filter-filter-live window now later [] h = refl
filter-filter-live window now later (t ∷ ts) h =
    ground (arith, filter-filter-live window now later ts h)

pub All-le_mono :
    (now later : ℕ) (ts : List ℕ) → now ≤ later → All (λ t. t ≤ now) ts → All (λ t. t ≤ later) ts
All-le_mono now later [] h a = tt
All-le_mono now later (t ∷ ts) h a = (omega arith, All-le_mono now later ts h a.1)

pub All-le-drop_stale :
    (window now bound : ℕ) (ts : List ℕ)
    → All (λ t. t ≤ bound) ts
    → All (λ t. t ≤ bound) (drop_stale window now ts)
unfolding drop_stale
All-le-drop_stale window now bound [] a = tt
All-le-drop_stale window now bound (t ∷ ts) a =
    ground (arith, All-le-drop_stale window now bound ts a.1)

pub length-filter {ℓ} :
    {A : Type ℓ} (p : A → Bool) (xs : List A) → length (filter p xs) ≡ count p xs
length-filter p [] = refl
length-filter p (x ∷ xs) = ground (arith, length-filter p xs)

-- The deque of a client stands for the log of its admitted instants.
pub record Stands (window now : ℕ) (stored log : List ℕ) : Type 0 where
  pub ascending : From 0 stored
  pub past : All (λ t. t ≤ now) stored
  pub agree : filter (live window now) stored ≡ filter (live window now) log

pub Stands-later :
    (window now later : ℕ) (stored log : List ℕ)
    → now ≤ later
    → Stands window now stored log
    → Stands window later stored log
Stands-later window now later stored log h s = record {
  ascending = s.ascending;
  past = All-le_mono now later stored h s.past;
  agree =
      sym (filter-filter-live window now later stored h)
      ∙ ap (filter (live window later)) s.agree
      ∙ filter-filter-live window now later log h;
}

-- To pop what is stale changes nothing.
pub Stands-drop_stale :
    (window now : ℕ) (stored log : List ℕ)
    → Stands window now stored log
    → Stands window now (drop_stale window now stored) log
Stands-drop_stale window now stored log s = record {
  ascending = From-drop_stale window now 0 stored s.ascending;
  past = All-le-drop_stale window now now stored s.past;
  agree =
      ap (filter (live window now)) (drop_stale-eq-filter window now 0 stored s.ascending)
      ∙ filter-filter-live window now now stored (omega arith)
      ∙ s.agree;
}

pub Stands-snoc :
    (window now : ℕ) (stored log : List ℕ)
    → Stands window now stored log
    → Stands window now (stored ++ now ∷ []) (log ++ now ∷ [])
Stands-snoc window now stored log s = record {
  ascending = From-snoc now 0 stored (omega arith) s.past s.ascending;
  past = All-append (λ t. t ≤ now) stored (now ∷ []) s.past (omega arith);
  agree = simp (filter-append, s.agree);
}

pub length-drop_stale :
    (window now : ℕ) (stored log : List ℕ)
    → Stands window now stored log
    → length (drop_stale window now stored) ≡ count (live window now) log
length-drop_stale window now stored log s =
    ap length (drop_stale-eq-filter window now 0 stored s.ascending ∙ s.agree)
    ∙ length-filter (live window now) log

-- A deque all of whose instants are stale.
pub Stands-empty :
    (window now : ℕ) (stored log : List ℕ)
    → Stands window now stored log
    → drop_stale window now stored ≡ []
    → Stands window now [] log
Stands-empty window now stored log s e = record {
  ascending = tt;
  past = tt;
  agree = ap (filter (live window now)) (sym e) ∙ (Stands-drop_stale window now stored log s).agree;
}

drop_stale-nil_of_is_stale :
    (window now lo : ℕ) (ts : List ℕ)
    → From lo ts
    → is_stale window now ts ≡ true
    → drop_stale window now ts ≡ []
unfolding drop_stale is_stale
drop_stale-nil_of_is_stale window now lo [] o h = refl
drop_stale-nil_of_is_stale window now lo (t ∷ []) o h = ground arith
drop_stale-nil_of_is_stale window now lo (t ∷ u ∷ ts) o h =
    ground (arith, drop_stale-nil_of_is_stale window now t (u ∷ ts) o.1 h)

-- What the sweep deletes held nothing that still counts.
pub Stands-of_is_stale :
    (window now : ℕ) (stored log : List ℕ)
    → Stands window now stored log
    → is_stale window now stored ≡ true
    → Stands window now [] log
Stands-of_is_stale window now stored log s h =
    Stands-empty window now stored log s
      (drop_stale-nil_of_is_stale window now 0 stored s.ascending h)
