-- ===== src/Stats/Failures.antt =====
-- stats/errors.go: how often each error occurred, and when first and last.
use Prim.Native.String.{◌++◌ as concat}
use launce.Base.{
  ℕ, ◌^◌, ◌<◌, ◌≡◌, ◌↔◌, refl, Bool, true, ◌&&◌, ◌||◌, not, none, some, [], ◌∷◌, String, arith,
  ◌==◌, if◌then◌else◌, str_eq, eq_iff,
}
use launce.Base.Int64.{add64, lt64, IsNonneg}
use launce.Base.Maps.{Key, GoMap, lookup, store, IsDistinct, lookup-store, store-IsDistinct}
use launce.Stats.Counters.{Time, latest, earliest}
use launce.Stats.Bounds.{latest_assoc}

pub record ErrorKey : Type 0 where
  pub method : String
  pub name : String
  pub error : String

-- `Encode`, where `sum` is the hexadecimal form of the SHA-256 sum.
unfoldable pub encode : (String → String) → ErrorKey → String
encode sum k = sum (concat (concat (concat (concat k.method ".") k.name) ".") k.error)

abbrev pub same_error : ErrorKey → ErrorKey → Bool
same_error a b = str_eq a.method b.method && (str_eq a.name b.name && str_eq a.error b.error)

pub same_error_iff : (a b : ErrorKey) → (same_error a b ≡ true) ↔ (a ≡ b)
same_error_iff a b =
    ground (arith, eq_iff a.method b.method, eq_iff a.name b.name, eq_iff a.error b.error)

instance abbrev pub ErrorKey-key : Key ErrorKey
ErrorKey-key = record { same = same_error; same_iff = same_error_iff }

pub record ErrorOccurrence : Type 0 where
  pub count : ℕ
  pub first_seen : ℕ
  pub last_seen : ℕ

-- Go's zero value, which a read of a missing key gives.
abbrev pub no_occurrence : ErrorOccurrence
no_occurrence = record { count = 0; first_seen = 0; last_seen = 0 }

abbrev pub Errors : Type 0
Errors = GoMap ErrorKey ErrorOccurrence

abbrev pub occurrence : ErrorKey → Errors → ErrorOccurrence
occurrence k e = elim (lookup k e) [ none ↦ no_occurrence | some o ↦ o ]

-- The middle of `Add`.
unfoldable pub see : ErrorOccurrence → ℕ → ErrorOccurrence
see o now = record {
  count = add64 o.count 1;
  first_seen = earliest o.first_seen now;
  last_seen = latest o.last_seen now;
}

-- The method `Add`; `err` is the text of the error.
unfoldable pub add : Errors → Time → String → String → String → Errors
unfolding see
add e now method name err =
    let key : ErrorKey = record { method = method; name = name; error = err } in
    store key (see (occurrence key e) now.unix_nano) e

-- `if s == 0 || (t != 0 && s > t) { s = t }`.
abbrev pub earlier : ℕ → ℕ → ℕ
earlier s t = if s == 0 || (not (t == 0) && lt64 t s) then t else s

-- The middle of `Merge`.
unfoldable pub combine : ErrorOccurrence → ErrorOccurrence → ErrorOccurrence
combine o v = record {
  count = add64 o.count v.count;
  first_seen = earlier o.first_seen v.first_seen;
  last_seen = latest o.last_seen v.last_seen;
}

-- The method `Merge`.
unfoldable pub merge : Errors → Errors → Errors
unfolding combine
merge e [] = e
merge e ((k, v) ∷ src) = merge (store k (combine (occurrence k e) v) e) src

pub merge-IsDistinct : (e src : Errors) → IsDistinct e → IsDistinct (merge e src)
unfolding merge
merge-IsDistinct e [] d = d
merge-IsDistinct e ((k, v) ∷ src) d =
    merge-IsDistinct (store k (combine (occurrence k e) v) e) src
      (store-IsDistinct k (combine (occurrence k e) v) e d)

-- Merging a second map, in which no key stands twice, into a first combines what they say of each
-- error of the second, and leaves alone what only the first has.
pub lookup-merge :
    (k : ErrorKey) (e src : Errors)
    → IsDistinct src
    → lookup k (merge e src)
      ≡ elim (lookup k src) [ none ↦ lookup k e | some v ↦ some (combine (occurrence k e) v) ]
unfolding merge lookup
lookup-merge k e [] d = refl
lookup-merge k e ((j, v) ∷ src) d = ground (
  arith,
  same_error_iff j k,
  lookup-store j k (combine (occurrence j e) v) e,
  lookup-merge k (store j (combine (occurrence j e) v) e) src d.1,
)

pub record IsOccurrence (o : ErrorOccurrence) : Type 0 where
  pub count_in_range : o.count < 2 ^ 64
  pub first_in_range : IsNonneg o.first_seen
  pub last_in_range : IsNonneg o.last_seen

earlier_comm : (a b : ℕ) → IsNonneg a → IsNonneg b → earlier a b ≡ earlier b a
earlier_comm a b ha hb = ground arith

earlier_assoc :
    (a b c : ℕ)
    → IsNonneg a
    → IsNonneg b
    → IsNonneg c
    → earlier (earlier a b) c ≡ earlier a (earlier b c)
earlier_assoc a b c ha hb hc = ground arith

latest_comm : (a b : ℕ) → IsNonneg a → IsNonneg b → latest a b ≡ latest b a
latest_comm a b ha hb = ground arith

combine_eq :
    {a b : ErrorOccurrence}
    → a.count ≡ b.count
    → a.first_seen ≡ b.first_seen
    → a.last_seen ≡ b.last_seen
    → a ≡ b
combine_eq p q r = λ i. record { count = p i; first_seen = q i; last_seen = r i }

-- For occurrences with 64-bit counts and times that are not negative, combining is commutative and
-- associative, and an error that was not seen changes nothing: the order in which partial results
-- are merged does not matter.
pub combine_laws :
    (a b c : ErrorOccurrence)
    → IsOccurrence a
    → IsOccurrence b
    → IsOccurrence c
    → (combine a b ≡ combine b a)
      × (combine (combine a b) c ≡ combine a (combine b c))
      × (combine a no_occurrence ≡ a)
      × (combine no_occurrence a ≡ a)
unfolding combine
combine_laws a b c ha hb hc = (
  combine_eq (omega arith) (earlier_comm _ _ ha.first_in_range hb.first_in_range)
      (latest_comm _ _ ha.last_in_range hb.last_in_range),
  combine_eq (omega arith)
      (earlier_assoc _ _ _ ha.first_in_range hb.first_in_range hc.first_in_range)
      (latest_assoc _ _ _ ha.last_in_range hb.last_in_range hc.last_in_range),
  combine_eq (omega arith) (ground arith) (ground arith),
  combine_eq (omega arith) (ground arith) (ground arith),
)

-- For an occurrence with a 64-bit count and times that are not negative, and a time after 1970: to
-- see an error again is to combine with a map in which it was seen once.
pub see-eq-combine :
    (o : ErrorOccurrence) (now : ℕ)
    → IsOccurrence o
    → 0 < now
    → IsNonneg now
    → see o now ≡ combine o (see no_occurrence now)
unfolding see combine
see-eq-combine o now h p n = ground arith
