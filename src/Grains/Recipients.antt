-- ===== src/Grains/Recipients.antt =====
-- `SendToManyRecipients` of src/grains/mod.rs: every recipient gets the message, the last one the
-- message itself and the others a clone. A recipient is an address of any type `R`, and what is
-- sent is the list of deliveries; a closed mailbox (`unwrap`) is not modelled.
use ingraind.Prelude.{
  ℕ, ◌+◌, ◌-◌, ◌≡◌, refl, List, [], ◌∷◌, map, arith, if◌then◌else◌, ◌==◌, nat_equality, length, ◌∙◌,
  ap,
}

module _ {R M : Type 0} where
  -- the loop at index `i` of `len`
  unfoldable pub send_from : ℕ → ℕ → M → List R → List (R × M)
  send_from i len message [] = []
  send_from i len message (r ∷ rs) =
      let rest = send_from (i + 1) len message rs in
      if i == len - 1 then (r, message) ∷ [] else (r, message) ∷ rest

  unfoldable pub do_send : List R → M → List (R × M)
  unfolding send_from
  do_send recipients message = send_from 0 (length recipients) message recipients

  send_from_lem :
      (i : ℕ) (message : M) (rs : List R)
      → send_from i (i + length rs) message rs ≡ map (λ r. (r, message)) rs
  unfolding send_from
  send_from_lem i message [] = refl
  send_from_lem i message (r ∷ []) = ground arith
  send_from_lem i message (r ∷ s ∷ rs) = ground (arith, send_from_lem (i + 1) message (s ∷ rs))

  -- Each recipient gets the message exactly once, in their order; with none, nothing is sent.
  pub do_send_lem :
      (recipients : List R) (message : M)
      → do_send recipients message ≡ map (λ r. (r, message)) recipients
  unfolding do_send
  do_send_lem recipients message =
      ap (λ n. send_from 0 n message recipients) (omega arith) ∙ send_from_lem 0 message recipients
