-- ===== src/Stats/Bounds.antt =====
-- stats/entry.go: the laws of the minimum and the maximum that entries keep.
use launce.Base.{ℕ, ◌<◌, ◌≡◌, sym, ap, ◌∙◌, ◌⊎◌, inl, inr, min, arith}
use launce.Base.Int64.{minus_one, IsNonneg}
use launce.Stats.Counters.{earliest, latest, least}

-- The times and the bounds of the response times are merged as by a minimum and a maximum.
pub earliest_assoc :
    (a b c : ℕ)
    → IsNonneg a
    → IsNonneg b
    → IsNonneg c
    → 0 < b
    → earliest (earliest a b) c ≡ earliest a (earliest b c)
earliest_assoc a b c ha hb hc h = ground arith

pub latest_assoc :
    (a b c : ℕ)
    → IsNonneg a
    → IsNonneg b
    → IsNonneg c
    → latest (latest a b) c ≡ latest a (latest b c)
latest_assoc a b c ha hb hc = ground arith

abbrev pub IsMin : ℕ → Type 0
IsMin m = (m ≡ minus_one) ⊎ IsNonneg m

-- -1 is the largest pattern, so the least time is the smaller pattern.
least-eq-min : (a b : ℕ) → IsMin a → IsMin b → least a b ≡ min a b
least-eq-min a b (inl ha) (inl hb) = ground arith
least-eq-min a b (inl ha) (inr hb) = ground arith
least-eq-min a b (inr ha) (inl hb) = ground arith
least-eq-min a b (inr ha) (inr hb) = ground arith

pub least-IsMin : (a b : ℕ) → IsMin a → IsMin b → IsMin (least a b)
least-IsMin a b (inl ha) hb = ground arith
least-IsMin a b (inr ha) hb = ground arith

pub least_assoc :
    (a b c : ℕ) → IsMin a → IsMin b → IsMin c → least (least a b) c ≡ least a (least b c)
least_assoc a b c ha hb hc =
    least-eq-min (least a b) c (least-IsMin a b ha hb) hc
    ∙ ap (λ m. min m c) (least-eq-min a b ha hb)
    ∙ omega arith
    ∙ ap (min a) (sym (least-eq-min b c hb hc))
    ∙ sym (least-eq-min a (least b c) ha (least-IsMin b c hb hc))
