-- ===== src/Core/RpsRing/Refines.antt =====
-- The array is a queue of times, oldest first: `count_in_window` drops the expired ones in front,
-- and `push` appends.
use roboppi.Base.{
  ℕ, zero, suc, ◌+◌, ◌-◌, ◌%◌, ◌≤◌, ◌<◌, ◌≡◌, ◌≢◌, refl, ap, ap₂, sym, ◌∙◌, inl, inr, List, [], ◌∷◌,
  ◌++◌, arith, get_or, set, length, length-set, length-replicate, get_or-set_self, get_or-set_ne,
  if◌then◌else◌, Bool-cases,
}
use native.Mathlib.Nat.{mod-lt, mod-mod, mod-add-mod}
use roboppi.Base.Int.{ℤ, pos, ltb_ℤ}
use roboppi.Core.RpsRing.{RpsRing, new, tail, evicted, count_in_window, push}
use roboppi.Core.RpsRing.Indices.{tail-add-count, tail-push, tail-drop, slots_differ}

pub record IsRing (r : RpsRing) : Type 0 where
  pub size : length r.buffer ≡ r.capacity
  pub inside : r.head < r.capacity
  pub fits : r.count ≤ r.capacity

-- `n` entries from index `i` on.
read : List ℕ → ℕ → ℕ → ℕ → List ℕ
read buffer c zero i = []
read buffer c (suc n) i = get_or buffer (i % c) 0 ∷ read buffer c n (i + 1)

unfoldable pub entries : RpsRing → List ℕ
unfolding read
entries r = read r.buffer r.capacity r.count (tail r)

-- The entries after the first that is past the start of the window, that one included.
unfoldable pub drop_expired : ℤ → List ℕ → List ℕ
drop_expired window_start [] = []
drop_expired window_start (t ∷ ts) =
    let rest = drop_expired window_start ts in if ltb_ℤ window_start (pos t) then t ∷ ts else rest

length-read : (b : List ℕ) (c n i : ℕ) → length (read b c n i) ≡ n
unfolding read
length-read b c zero i = refl
length-read b c (suc n) i = ap suc (length-read b c n (i + 1))

pub length-entries : (r : RpsRing) → length (entries r) ≡ r.count
unfolding entries
length-entries r = length-read r.buffer r.capacity r.count (tail r)

read_at : (b : List ℕ) (c : ℕ) {n m i j : ℕ} → n ≡ m → i ≡ j → read b c n i ≡ read b c m j
read_at b c p q k = read b c (p k) (q k)

read_mod : (b : List ℕ) (c n i : ℕ) → read b c n (i % c) ≡ read b c n i
unfolding read
read_mod b c zero i = refl
read_mod b c (suc n) i = cc (
  mod-mod i c,
  sym (read_mod b c n (i % c + 1)),
  ap (read b c n) (mod-add-mod i c 1),
  read_mod b c n (i + 1),
)

evicted-le : (r : RpsRing) (w : ℤ) (n i : ℕ) → evicted r w n i ≤ n
unfolding evicted
evicted-le r w zero i = omega arith
evicted-le r w (suc n) i = ground (arith, evicted-le r w n (i + 1))

drop_expired-read :
    (r : RpsRing) (w : ℤ) (n i : ℕ)
    → drop_expired w (read r.buffer r.capacity n (tail r + i))
      ≡ read r.buffer r.capacity (n - evicted r w n i) (tail r + i + evicted r w n i)
unfolding drop_expired read evicted
drop_expired-read r w zero i = refl
drop_expired-read r w (suc n) i =
    elim (Bool-cases (ltb_ℤ w (pos (get_or r.buffer ((tail r + i) % r.capacity) 0)))) [
      | inl young ↦ rw young (
          read_at r.buffer r.capacity {n = suc n} {m = suc n - 0} {i = tail r + i}
            {j = tail r + i + 0} (omega arith) (omega arith))
      | inr old ↦ rw old (
          ap (drop_expired w) (
            read_at r.buffer r.capacity {n = n} {m = n} {i = tail r + i + 1} {j = tail r + (i + 1)}
              refl (omega arith))
          ∙ (drop_expired-read r w n (i + 1)
              ∙ read_at r.buffer r.capacity {n = n - evicted r w n (i + 1)}
                  {m = suc n - suc (evicted r w n (i + 1))}
                  {i = tail r + (i + 1) + evicted r w n (i + 1)}
                  {j = tail r + i + suc (evicted r w n (i + 1))} (omega arith) (omega arith)))
    ]

-- Counting drops the expired times in front, and counts the others.
pub entries-count_in_window :
    (r : RpsRing) (w : ℤ)
    → IsRing r
    → (entries (count_in_window w r).1 ≡ drop_expired w (entries r))
      × ((count_in_window w r).0 ≡ length (drop_expired w (entries r)))
unfolding entries count_in_window
entries-count_in_window r w v = (
  read_at r.buffer r.capacity {n = r.count - e} {m = r.count - e} refl
        (tail-drop r.capacity r.head r.count v.inside v.fits e le)
      ∙ (read_mod r.buffer r.capacity (r.count - e) (tail r + e) ∙ sym dropped),
  sym (ap length dropped ∙ length-read r.buffer r.capacity (r.count - e) (tail r + e)),
)
  where
    e : ℕ
    e = evicted r w r.count 0

    le : e ≤ r.count
    le = evicted-le r w r.count 0

    dropped :
        drop_expired w (read r.buffer r.capacity r.count (tail r))
        ≡ read r.buffer r.capacity (r.count - e) (tail r + e)
    dropped =
        ap (drop_expired w) (
          read_at r.buffer r.capacity {n = r.count} {m = r.count} {i = tail r} {j = tail r + 0} refl
            (omega arith))
        ∙ (drop_expired-read r w r.count 0
            ∙ read_at r.buffer r.capacity {n = r.count - e} {m = r.count - e} {i = tail r + 0 + e}
                {j = tail r + e} refl (omega arith))

pub count_in_window-IsRing : (r : RpsRing) (w : ℤ) → IsRing r → IsRing (count_in_window w r).1
unfolding count_in_window
count_in_window-IsRing r w v = record {
  size = v.size;
  inside = v.inside;
  fits = omega (arith, v.fits);
}

read-set :
    (b : List ℕ) (c n start : ℕ) (h t : ℕ)
    → ((i : ℕ) → i < n → (start + i) % c ≢ h)
    → read (set b h t) c n start ≡ read b c n start
unfolding read
read-set b c zero start h t away = refl
read-set b c (suc n) start h t away =
    ap₂ ◌∷◌
      (get_or-set_ne b h (start % c) t 0 (λ e.
        away 0 (omega arith) (ap (λ x. x % c) {x = start + 0} {y = start} (omega arith) ∙ sym e)))
      (read-set b c n (start + 1) h t (λ i lt e.
        away (i + 1) (omega arith)
          (ap (λ x. x % c) {x = start + (i + 1)} {y = start + 1 + i} (omega arith) ∙ e)))

read-suc :
    (b : List ℕ) (c n i : ℕ) → read b c (suc n) i ≡ read b c n i ++ get_or b ((i + n) % c) 0 ∷ []
unfolding read
read-suc b c zero i = ap (λ k. get_or b (k % c) 0 ∷ []) {x = i} {y = i + 0} (omega arith)
read-suc b c (suc n) i = ap (◌∷◌ (get_or b (i % c) 0)) (
    read-suc b c n (i + 1)
    ∙ ap (λ k. read b c n (i + 1) ++ get_or b (k % c) 0 ∷ []) {x = i + 1 + n} {y = i + suc n}
        (omega arith))

-- A push appends, as long as a slot is free.
pub entries-push :
    (r : RpsRing) (t : ℕ)
    → IsRing r
    → r.count < r.capacity
    → entries (push t r) ≡ entries r ++ t ∷ []
unfolding entries push
entries-push r t v lt =
    read_at b c {n = r.count + 1} {m = suc r.count} (omega arith)
      (tail-push c r.head r.count v.inside v.fits lt)
    ∙ (read-suc b c r.count (tail r) ∙ ap₂ (λ xs x. xs ++ x ∷ []) older newest)
  where
    c : ℕ
    c = r.capacity

    b : List ℕ
    b = set r.buffer r.head t

    place : (tail r + r.count) % c ≡ r.head
    place = tail-add-count c r.head r.count v.inside v.fits

    older : read b c r.count (tail r) ≡ read r.buffer c r.count (tail r)
    older = read-set r.buffer c r.count (tail r) r.head t (λ i le e.
        slots_differ c (tail r) i r.count (mod-lt _ (omega (arith, v.inside))) le lt
          (e ∙ sym place))

    newest : get_or b ((tail r + r.count) % c) 0 ≡ t
    newest = rw place (get_or-set_self r.buffer r.head t 0 (omega (arith, v.inside, v.size)))

pub push-IsRing : (r : RpsRing) (t : ℕ) → IsRing r → r.count < r.capacity → IsRing (push t r)
unfolding push
push-IsRing r t v lt = record {
  size = length-set r.buffer r.head t ∙ v.size;
  inside = mod-lt _ (omega (arith, v.inside));
  fits = omega arith;
}

pub new-IsRing : (n : ℕ) → IsRing (new n) × (entries (new n) ≡ [])
unfolding new entries read
new-IsRing n =
    (record { size = length-replicate (n + 1) 0; inside = omega arith; fits = omega arith }, refl)
