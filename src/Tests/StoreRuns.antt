-- ===== src/Tests/StoreRuns.antt =====
-- The store on concrete writes.
use mqtt2prometheus.Base.{
  Text, ℕ, ◌≡◌, ◌≢◌, refl, true, false, ltb, codes, List, [], ◌∷◌, ◌++◌, map, arith, ◌+◌,
}
use mathlib.Core.List.{Perm}
use mqtt2prometheus.Base.Dict.{Dict, values, lookup}
use mqtt2prometheus.Base.Sort.{IsOrdered}
use mqtt2prometheus.Store.{counter, Series, identity, fresh, observe_counter, snapshot, sample_of}
use mqtt2prometheus.Store.Identity.{identity_injective, identity_collides}
use mqtt2prometheus.Store.Counter.{
  shown, observe_all, before_drops, final, sum_from, observe_all_lem, CounterLaws,
  shown-observe_counter,
}
use mqtt2prometheus.Store.History.{
  Write, write, run, history, replay, lookup-run, IsValid, set-IsValid,
}
use mqtt2prometheus.Store.Snapshot.{shown_for, shown_before, snapshot_lem}
use mqtt2prometheus.Tests.Toy.{toy}

abbrev power : Text
power = codes "power"

abbrev device_a : Dict Text
device_a = (codes "device", codes "a") ∷ []

abbrev first : Write ℕ
first = record { name = power; kind = counter; help = []; labels = device_a; value = 5 }

abbrev second : Write ℕ
second = record { name = power; kind = counter; help = []; labels = device_a; value = 2 }

abbrev id_a : Text
id_a = codes "power" ++ (0 ∷ codes "device" ++ 0 ∷ codes "a")

identity_injective_example :
    (power ≡ power)
    × (codes "device" ∷ [] ≡ codes "device" ∷ [])
    × (codes "a" ∷ [] ≡ codes "a" ∷ [])
identity_injective_example =
    identity_injective power power (codes "device" ∷ []) (codes "device" ∷ []) (codes "a" ∷ [])
      (codes "a" ∷ []) (omega arith) (omega arith) (omega arith) (omega arith) (omega arith)
      (omega arith) refl refl refl

identity_collides_example :
    let vs : List Text = (codes "x" ++ (0 ∷ codes "b" ++ 0 ∷ codes "y")) ∷ codes "z" ∷ [] in
    let us : List Text = codes "x" ∷ (codes "y" ++ (0 ∷ codes "b" ++ 0 ∷ codes "z")) ∷ [] in
    (vs ≢ us)
    × (identity power (codes "a" ∷ codes "b" ∷ []) vs
        ≡ identity power (codes "a" ∷ codes "b" ∷ []) us)
identity_collides_example =
    identity_collides power (codes "a") (codes "b") (codes "x") (codes "y") (codes "z")

-- 5, then 2 after a restart, then 4: shown as 4 + 5.
restart : shown toy (observe_all toy (fresh toy power counter [] [] []) (5 ∷ 2 ∷ 4 ∷ [])) ≡ 9
unfolding observe_counter fresh sample_of
restart = refl

observe_all_lem_example :
    shown toy (observe_all toy (fresh toy power counter [] [] []) (5 ∷ 2 ∷ 4 ∷ []))
    ≡ final toy 5 (2 ∷ 4 ∷ []) + sum_from toy 0 (before_drops toy 5 (2 ∷ 4 ∷ []))
observe_all_lem_example = observe_all_lem toy power [] [] [] 5 (2 ∷ 4 ∷ [])

toy-CounterLaws : CounterLaws toy (λ n. Unit)
toy-CounterLaws = record {
  zero_count = tt;
  plus_count = λ a b _ _. tt;
  zero_least = λ a _. ground arith;
  lt_irrefl = λ a _. ground arith;
  plus_comm = λ a b _ _. omega arith;
  plus_grows = λ a b _ _. ground arith;
  plus_mono = λ a b c _ _ _ h. ground arith;
}

abbrev running : Series ℕ
running = record {
  kind = counter;
  help = [];
  names = [];
  values = [];
  name = power;
  last = 5;
  offset = 3;
  seen = true;
}

shown-observe_counter_example :
    ltb (shown toy (observe_counter toy running 2)) (shown toy running) ≡ false
shown-observe_counter_example =
    shown-observe_counter toy (λ n. Unit) toy-CounterLaws running 2
      (record { last_count = tt; offset_count = tt; unseen = λ e. cc }) tt

lookup-run_example :
    lookup id_a (run toy [] (first ∷ second ∷ []))
    ≡ replay toy (lookup id_a []) (history toy id_a (first ∷ second ∷ []))
lookup-run_example = lookup-run toy [] (first ∷ second ∷ []) id_a

empty-IsValid : IsValid toy []
unfolding lookup
empty-IsValid = record { nodup = tt; at = λ k c e. cc }

set-IsValid_example : IsValid toy (write toy [] first)
set-IsValid_example = set-IsValid toy [] first empty-IsValid

snapshot_lem_example :
    Perm (snapshot toy (write toy [] first)) (map (shown_for toy) (values (write toy [] first)))
    × IsOrdered shown_before (snapshot toy (write toy [] first))
snapshot_lem_example = snapshot_lem toy (write toy [] first)
