-- ===== src/Statistics/Windows.antt =====
-- The rings as sliding windows over the values of every five minutes.
use mathlib.Core.List.{append_assoc, append-nil}
use push_component.Base.{
  ℕ, zero, suc, ◌+◌, ◌-◌, ◌%◌, ◌<◌, ◌≡◌, refl, ap, sym, subst, ◌∙◌, List, [], ◌∷◌, ◌++◌, map,
  Option, none, some, arith, length, drop, replicate, length-append, length-map,
}
use push_component.Statistics.{
  modulus32, add32, div32, Ring, put_next, sum_from, StatsValue, new_stats_value, accumulate_value,
  report,
}

-- The last so many of the values.
abbrev pub last : ℕ → List ℕ → List ℕ
last n vs = drop (length vs - n) vs

abbrev pub sum : List ℕ → ℕ
sum [] = 0
sum (v ∷ vs) = v + sum vs

-- A ring that was empty, after the values.
abbrev window : ℕ → List ℕ → Ring
window n vs = drop (length vs) (replicate n none ++ map some vs)

put_next-drop :
    (v k : ℕ) (r : Ring) → k < length r → put_next v (drop k r) ≡ drop (suc k) (r ++ some v ∷ [])
unfolding put_next
put_next-drop v k [] h = absurd (omega arith)
put_next-drop v zero (x ∷ r) h = refl
put_next-drop v (suc k) (x ∷ r) h = put_next-drop v k r (omega arith)

length-replicate : (n : ℕ) (x : Option ℕ) → length (replicate n x) ≡ n
length-replicate zero x = refl
length-replicate (suc n) x = omega (arith, length-replicate n x)

map-append : (vs ws : List ℕ) → map some (vs ++ ws) ≡ map some vs ++ map some ws
map-append [] ws = refl
map-append (v ∷ vs) ws = ap (◌∷◌ (some v)) (map-append vs ws)

put_next-window :
    (n v : ℕ) (vs : List ℕ) → 0 < n → put_next v (window n vs) ≡ window n (vs ++ v ∷ [])
put_next-window n v vs h =
    let room : length vs < length (replicate n none ++ map some vs) = omega (
      arith,
      length-append (replicate n none) (map some vs),
      length-replicate n none,
      length-map vs some,
    ) in
    let one_more : suc (length vs) ≡ length (vs ++ v ∷ []) =
      omega (arith, length-append vs (v ∷ [])) in
    let values : (replicate n none ++ map some vs) ++ some v ∷ []
        ≡ replicate n none ++ map some (vs ++ v ∷ []) =
      append_assoc (replicate n none) (map some vs) (some v ∷ [])
      ∙ ap (λ r. replicate n none ++ r) (sym (map-append vs (v ∷ []))) in
    put_next-drop v (length vs) (replicate n none ++ map some vs) room
    ∙ ap (λ r. drop (suc (length vs)) r) values
    ∙ ap (λ j. drop j (replicate n none ++ map some (vs ++ v ∷ []))) one_more

sum_from-none :
    (acc n k : ℕ) (r : Ring)
    → sum_from acc (drop k (replicate n none ++ r)) ≡ sum_from acc (drop (k - n) r)
unfolding sum_from
sum_from-none acc zero k r = ap (λ j. sum_from acc (drop j r)) (omega arith)
sum_from-none acc (suc n) zero r =
    sum_from-none acc n zero r ∙ ap (λ j. sum_from acc (drop j r)) (omega arith)
sum_from-none acc (suc n) (suc k) r =
    sum_from-none acc n k r ∙ ap (λ j. sum_from acc (drop j r)) (omega arith)

drop-map : (k : ℕ) (vs : List ℕ) → drop k (map some vs) ≡ map some (drop k vs)
drop-map zero vs = refl
drop-map (suc k) [] = refl
drop-map (suc k) (v ∷ vs) = drop-map k vs

sum_from-map :
    (acc : ℕ) (vs : List ℕ)
    → acc < modulus32
    → sum_from acc (map some vs) ≡ (acc + sum vs) % modulus32
unfolding sum_from
sum_from-map acc [] h = omega arith
sum_from-map acc (v ∷ vs) h = omega (arith, sum_from-map (add32 acc v) vs (omega arith))

sum_from-window : (n : ℕ) (vs : List ℕ) → sum_from 0 (window n vs) ≡ sum (last n vs) % modulus32
sum_from-window n vs =
    sum_from-none 0 n (length vs) (map some vs)
    ∙ ap (λ r. sum_from 0 r) (drop-map (length vs - n) vs)
    ∙ sum_from-map 0 (last n vs) (omega arith)
    ∙ omega arith

-- The value at the end of every five minutes, one after the other: what changes it in between, and
-- what sets it back, leaves the rings alone.
abbrev pub accumulated : List ℕ → StatsValue → StatsValue
accumulated [] s = s
accumulated (v ∷ vs) s = accumulated vs (accumulate_value (record s { val5min = v }))

-- The rings hold the windows over the values.
record HoldsWindows (vs : List ℕ) (s : StatsValue) : Type 0 where
  hour : s.val60min ≡ window 12 vs
  day : s.val1day ≡ window 288 vs
  week : s.val7day ≡ window 2016 vs

accumulated-HoldsWindows :
    (past vs : List ℕ) (s : StatsValue)
    → HoldsWindows past s
    → HoldsWindows (past ++ vs) (accumulated vs s)
unfolding accumulate_value
accumulated-HoldsWindows past [] s h = subst (λ past. HoldsWindows past s) (sym (append-nil past)) h
accumulated-HoldsWindows past (v ∷ vs) s h =
    subst (λ all. HoldsWindows all (accumulated (v ∷ vs) s)) (append_assoc past (v ∷ []) vs)
      (accumulated-HoldsWindows (past ++ v ∷ []) vs (accumulate_value (record s { val5min = v }))
        (record {
          hour = ap (put_next v) h.hour ∙ put_next-window 12 v past (omega arith);
          day = ap (put_next v) h.day ∙ put_next-window 288 v past (omega arith);
          week = ap (put_next v) h.week ∙ put_next-window 2016 v past (omega arith);
        }))

report-HoldsWindows :
    (vs : List ℕ) (v : ℕ) (s : StatsValue)
    → HoldsWindows vs s
    → report (record s { val5min = v }) ≡ (
      v,
      div32 (sum (last 12 vs) % modulus32) 12,
      div32 (sum (last 288 vs) % modulus32) 288,
      div32 (sum (last 2016 vs) % modulus32) 2016,
    )
unfolding report
report-HoldsWindows vs v s h =
    let hour : sum_from 0 s.val60min ≡ sum (last 12 vs) % modulus32 =
      ap (sum_from 0) h.hour ∙ sum_from-window 12 vs in
    let day : sum_from 0 s.val1day ≡ sum (last 288 vs) % modulus32 =
      ap (sum_from 0) h.day ∙ sum_from-window 288 vs in
    let week : sum_from 0 s.val7day ≡ sum (last 2016 vs) % modulus32 =
      ap (sum_from 0) h.week ∙ sum_from-window 2016 vs in
    ap (λ a. (v, div32 a 12, div32 (sum_from 0 s.val1day) 288, div32 (sum_from 0 s.val7day) 2016))
      hour
    ∙ ap
        (λ a. (
          v,
          div32 (sum (last 12 vs) % modulus32) 12,
          div32 a 288,
          div32 (sum_from 0 s.val7day) 2016,
        ))
        day
    ∙ ap
        (λ a. (
          v,
          div32 (sum (last 12 vs) % modulus32) 12,
          div32 (sum (last 288 vs) % modulus32) 288,
          div32 a 2016,
        ))
        week

new-HoldsWindows : HoldsWindows [] new_stats_value
new-HoldsWindows = record {
  hour = sym (append-nil (replicate 12 none));
  day = sym (append-nil (replicate 288 none));
  week = sym (append-nil (replicate 2016 none));
}

-- What is reported after any values at the ends of five minutes, and with any value since: that
-- value, and the sums of the last 12, of the last 288 and of the last 2016 of those values, in 32-bit
-- arithmetic, each divided by that number, towards zero.
pub report-accumulated :
    (vs : List ℕ) (v : ℕ)
    → report (record (accumulated vs new_stats_value) { val5min = v }) ≡ (
      v,
      div32 (sum (last 12 vs) % modulus32) 12,
      div32 (sum (last 288 vs) % modulus32) 288,
      div32 (sum (last 2016 vs) % modulus32) 2016,
    )
report-accumulated vs v =
    report-HoldsWindows vs v (accumulated vs new_stats_value)
      (accumulated-HoldsWindows [] vs new_stats_value new-HoldsWindows)
