-- ===== src/System/Counting.antt =====
-- Counting the clients of a program that have a life cell.
use rust_jack.Base.{
  ℕ, ◌+◌, ◌≡◌, refl, subst, ◌≢◌, ◌↔◌, none, some, List, [], ◌∷◌, ◌++◌, arith, ◌==◌, if◌then◌else◌,
  length, length-append,
}
use rust_jack.Client.{Client}
use rust_jack.Client.Callbacks.{CallbackContext}
use rust_jack.Client.Async.{AsyncClient}
use rust_jack.System.{System}

-- How many of some clients have the life cell `d`.
abbrev pub client_count : ℕ → List Client → ℕ
client_count d [] = 0
client_count d (c ∷ cs) = (if d == c.cell then 1 else 0) + client_count d cs

module _ {N P : Type 0} where
  abbrev pub active_count : ℕ → List (AsyncClient N P) → ℕ
  active_count d [] = 0
  active_count d (a ∷ rest) =
      elim a.callback [ none ↦ 0 | some (box, ctx) ↦ if d == ctx.client.cell then 1 else 0 ]
      + active_count d rest

  -- Every active client still has its context.
  abbrev pub IsFull : List (AsyncClient N P) → Type 0
  IsFull [] = Unit {0}
  IsFull (a ∷ rest) = (a.callback ≢ none) × IsFull rest

module _ {L N P : Type 0} where
  -- The owners of the life cell `d`, and of anything.
  abbrev pub owners : ℕ → System L N P → ℕ
  owners d s = client_count d s.clients + active_count d s.active + client_count d s.leaked

  abbrev pub owned : System L N P → ℕ
  owned s = length s.clients + length s.active + length s.leaked + s.unclosed

pub client_count-append :
    (d : ℕ) (xs ys : List Client)
    → client_count d (xs ++ ys) ≡ client_count d xs + client_count d ys
client_count-append d [] ys = omega arith
client_count-append d (x ∷ xs) ys = omega (arith, client_count-append d xs ys)

module _ {N P : Type 0} where
  pub active_count-append :
      (d : ℕ) (xs ys : List (AsyncClient N P))
      → active_count d (xs ++ ys) ≡ active_count d xs + active_count d ys
  active_count-append d [] ys = omega arith
  active_count-append d (x ∷ xs) ys = omega (arith, active_count-append d xs ys)

  pub IsFull-append : (xs ys : List (AsyncClient N P)) → IsFull (xs ++ ys) ↔ (IsFull xs × IsFull ys)
  IsFull-append [] ys = (λ h. (tt, h), λ h. h.1)
  IsFull-append (x ∷ xs) ys =
      let ih = IsFull-append xs ys in
      (λ h. ((h.0, (ih.0 h.1).0), (ih.0 h.1).1), λ h. (h.0.0, ih.1 (h.0.1, h.1)))

pub same_cell :
    (d : ℕ) (c c' : Client)
    → c.cell ≡ c'.cell
    → ◌≡◌ {A = ℕ} (if d == c.cell then 1 else 0) (if d == c'.cell then 1 else 0)
same_cell d c c' e = rw e refl

-- An active client that has its context.
abbrev pub active_of : {N P : Type 0} → ℕ → CallbackContext N P → AsyncClient N P
active_of box ctx = record { callback = some (box, ctx) }

module _ (d : ℕ) where
  pub active_count-new :
      {N P : Type 0} (a : AsyncClient N P) (x : ℕ × CallbackContext N P)
      (zs : List (AsyncClient N P))
      → a.callback ≡ some x
      → active_count d (a ∷ zs) ≡ (if d == x.1.client.cell then 1 else 0) + active_count d zs
  active_count-new a x zs e = rw e refl

  -- A client is taken out of a list.
  pub client_count-out :
      (c : Client) (xs ys zs : List Client)
      → zs ≡ xs ++ (c ∷ ys)
      → client_count d (xs ++ ys) + (if d == c.cell then 1 else 0) ≡ client_count d zs
  client_count-out c xs ys zs e =
      rw e (omega (arith, client_count-append d xs ys, client_count-append d xs (c ∷ ys)))

  pub active_count-out :
      {N P : Type 0} (box : ℕ) (ctx : CallbackContext N P) (xs ys zs : List (AsyncClient N P))
      → zs ≡ xs ++ (record { callback = some (box, ctx) } ∷ ys)
      → active_count d (xs ++ ys) + (if d == ctx.client.cell then 1 else 0) ≡ active_count d zs
  active_count-out box ctx xs ys zs e = rw e (
      omega (
        arith,
        active_count-append d xs ys,
        active_count-append d xs (record { callback = some (box, ctx) } ∷ ys),
      ))

pub length-out :
    {A : Type 0} (x : A) (xs ys zs : List A)
    → zs ≡ xs ++ (x ∷ ys)
    → length (xs ++ ys) + 1 ≡ length zs
length-out x xs ys zs e = rw e (omega (arith, length-append xs ys, length-append xs (x ∷ ys)))

pub IsFull-out :
    {N P : Type 0} (a : AsyncClient N P) (xs ys zs : List (AsyncClient N P))
    → zs ≡ xs ++ (a ∷ ys)
    → IsFull zs
    → IsFull (xs ++ ys)
IsFull-out a xs ys zs e h =
    let parts = (IsFull-append xs (a ∷ ys)).0 (subst IsFull e h) in
    (IsFull-append xs ys).1 (parts.0, parts.1.1)

pub IsFull-put :
    {N P : Type 0} (box : ℕ) (ctx : CallbackContext N P) (xs ys : List (AsyncClient N P))
    → IsFull (xs ++ ys)
    → IsFull (xs ++ (active_of box ctx ∷ ys))
IsFull-put box ctx xs ys h =
    let parts = (IsFull-append xs ys).0 h in
    (IsFull-append xs (active_of box ctx ∷ ys)).1 (parts.0, ((λ z. cc), parts.1))
