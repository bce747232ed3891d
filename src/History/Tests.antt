-- ===== src/History/Tests.antt =====
-- values.c: a short history, and each theorem at it.
use g.Base.{
  ℕ, zero, suc, ◌/◌, ◌%◌, ◌<◌, ◌≡◌, refl, false, ◌==◌, if◌then◌else◌, none, some, [], ◌∷◌, arith,
}
use g.Base.Int.{pos, negsuc}
use g.History.{
  History, record_latest_value, access_value_history, HistoryError, Accessed, value_at, absolute,
}
use g.History.Refine.{Represents, item, record_latest_value-Represents}
use g.History.Access.{slot, IsLaidOut, access_value_history-look}
use mathlib.Core.List.{reverse}

abbrev no_values : History ℕ
no_values = record { chain = []; count = 0 }

no_values-Represents : Represents no_values []
no_values-Represents = record { counted = refl; chunks = refl; holds = λ k h. absurd (omega arith) }

abbrev two_values : History ℕ
two_values = record {
  chain = (λ i. if i == 0 then some 7 else if i == 1 then some 9 else none) ∷ [];
  count = 2;
}

last_but_one : access_value_history (negsuc 0) two_values ≡ Accessed.found (some 7)
unfolding access_value_history value_at absolute
last_but_one = refl

record_latest_value-Represents_example :
    let (n, h) = record_latest_value (λ v. false) 7 no_values in (n ≡ pos 1) × Represents h (7 ∷ [])
record_latest_value-Represents_example =
    record_latest_value-Represents (λ v. false) 7 no_values [] refl no_values-Represents

two_values-slots :
    (k : ℕ) → k < 2 → slot (item (k / 60) (reverse two_values.chain)) (k % 60) ≡ item k (7 ∷ 9 ∷ [])
two_values-slots zero h = refl
two_values-slots (suc zero) h = refl
two_values-slots (suc (suc k)) h = absurd (omega arith)

two_values-IsLaidOut : IsLaidOut two_values (7 ∷ 9 ∷ [])
two_values-IsLaidOut = record { counted = refl; chunks = refl; slots = two_values-slots }

access_value_history-look_example :
    access_value_history (negsuc 0) two_values ≡ Accessed.found (some 7)
access_value_history-look_example =
    access_value_history-look (negsuc 0) two_values (7 ∷ 9 ∷ []) two_values-IsLaidOut

too_far_back : access_value_history (negsuc 1) two_values ≡ Accessed.raises HistoryError.too_far
unfolding access_value_history absolute
too_far_back = refl
