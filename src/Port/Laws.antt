-- ===== src/Port/Laws.antt =====
-- The calls of a port whose client is gone, the aliases, and the order of ports.
use rust_jack.Base.{
  ◌≤◌, ◌<◌, ◌≡◌, subst, Bool, List, [], ◌∷◌, arith, length, Result, ok, err, ◌>>◌, returns,
}
use rust_jack.Enums.{Str, Error, client_is_no_longer_alive}
use rust_jack.Life.{Lives}
use rust_jack.Strings.{Utf8}
use rust_jack.Port.{
  Port, PortApi, nonempty, check_client_life, name, short_name, port_type, connected_count, aliases,
  is_monitoring_input, is_connected_to, request_monitor, ensure_monitor, set_name, set_alias,
  unset_alias,
}

module _ {W : Type 0} (api : PortApi W) (utf8 : Utf8) (lives : Lives) (p : Port) (w : W) where
  gone : lives p.client_life.cell ≡ 0 → check_client_life lives p ≡ err client_is_no_longer_alive
  unfolding check_client_life
  gone h = ground arith

  alive : 0 < lives p.client_life.cell → check_client_life lives p ≡ ok tt
  unfolding check_client_life
  alive h = ground arith

  -- Once the client is gone, every query of its port fails with `ClientIsNoLongerAlive`.
  pub dead_queries :
      (s : Str)
      → lives p.client_life.cell ≡ 0
      → (name api utf8 lives p w ≡ err client_is_no_longer_alive)
        × (short_name api utf8 lives p w ≡ err client_is_no_longer_alive)
        × (port_type api utf8 lives p w ≡ err client_is_no_longer_alive)
        × (connected_count api utf8 lives p w ≡ err client_is_no_longer_alive)
        × (aliases api utf8 lives p w ≡ err client_is_no_longer_alive)
        × (is_monitoring_input api utf8 lives p w ≡ err client_is_no_longer_alive)
        × (is_connected_to api utf8 lives p s w ≡ returns (err client_is_no_longer_alive))
  unfolding name short_name port_type connected_count aliases is_monitoring_input is_connected_to
  dead_queries s h =
      let e = gone h in
      (
        ground arith,
        ground arith,
        ground arith,
        ground arith,
        ground arith,
        ground arith,
        ground arith,
      )

  -- Once the client is gone, every change of its port fails with `ClientIsNoLongerAlive` and does not
  -- reach the library; the check comes before the string is converted, so no string makes it panic.
  pub dead_changes :
      (s : Str) (b : Bool)
      → lives p.client_life.cell ≡ 0
      → (request_monitor api utf8 lives p b w ≡ (err client_is_no_longer_alive, w))
        × (ensure_monitor api utf8 lives p b w ≡ (err client_is_no_longer_alive, w))
        × (set_name api utf8 lives p s w ≡ returns (err client_is_no_longer_alive, w))
        × (set_alias api utf8 lives p s w ≡ returns (err client_is_no_longer_alive, w))
        × (unset_alias api utf8 lives p s w ≡ returns (err client_is_no_longer_alive, w))
  unfolding request_monitor ensure_monitor set_name set_alias unset_alias
  dead_changes s b h =
      let e = gone h in (ground arith, ground arith, ground arith, ground arith, ground arith)

abbrev pub IsNonempty : Str → Type 0
IsNonempty [] = ⊥
IsNonempty (b ∷ s) = Unit {0}

abbrev pub All {ℓ} : {A : Type 0} → (A → Type ℓ) → List A → Type ℓ
All P [] = Unit
All P (x ∷ xs) = P x × All P xs

nonempty-All : (ss : List Str) → All IsNonempty (nonempty ss)
nonempty-All [] = tt
nonempty-All ([] ∷ ss) = nonempty-All ss
nonempty-All ((b ∷ s) ∷ ss) = (tt, nonempty-All ss)

length-nonempty : (ss : List Str) → length (nonempty ss) ≤ length ss
length-nonempty [] = omega arith
length-nonempty ([] ∷ ss) = omega (arith, length-nonempty ss)
length-nonempty ((b ∷ s) ∷ ss) = omega (arith, length-nonempty ss)

-- The result of a block whose first step only checks.
>>-eq-ok : (m : Result (Unit {0}) Error) (r ss : List Str) → (m >> ok r) ≡ ok ss → r ≡ ss
>>-eq-ok (ok tt) r ss h = ground arith
>>-eq-ok (err e) r ss h = cc

-- The aliases of a port are two at most, and none of them is empty, whatever the library wrote.
pub aliases_lem :
    {W : Type 0} (api : PortApi W) (utf8 : Utf8) (lives : Lives) (p : Port) (w : W) (ss : List Str)
    → aliases api utf8 lives p w ≡ ok ss
    → (length ss ≤ 2) × All IsNonempty ss
unfolding aliases check_client_life
aliases_lem api utf8 lives p w ss h = kept _ _ ss (>>-eq-ok _ _ ss h)
  where
    kept :
        (x y : Str) (ss : List Str)
        → nonempty (x ∷ y ∷ []) ≡ ss
        → (length ss ≤ 2) × All IsNonempty ss
    kept x y ss e =
        subst (λ l. (length l ≤ 2) × All IsNonempty l) e
          (length-nonempty (x ∷ y ∷ []), nonempty-All (x ∷ y ∷ []))
