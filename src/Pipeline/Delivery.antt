-- ===== src/Pipeline/Delivery.antt =====
-- Messages on their way through the stages of a pipeline: each stage of src/aggregations handles the
-- messages that the one before it sends, in their order, and the backend gets what the last one sends.
pub mod Whitelisted
use ingraind.Prelude.{
  ℕ, ◌≡◌, refl, ap, sym, ◌∙◌, true, false, Text, Option, none, some, List, [], ◌∷◌, ◌++◌, map, Run,
  ok, err, ◌>>=◌, bind_inv, All, All-retain, All-retain_self, All-append, All-weaken, All-intro,
}
use ingraind.Float.{Float}
use ingraind.Backends.{Message, single, list, measurements, for_each}
use ingraind.Metrics.{Measurement}
use ingraind.Metrics.TagList.{Tags}
use ingraind.Aggregations.Buffer.{Hasher, Histogram}
use ingraind.Aggregations.Buffer.Schedule as Schedule
use ingraind.Aggregations.Buffer.Schedule.{Request, cancel_future, run_later, do_send}
use ingraind.Aggregations.Container as Container
use ingraind.Aggregations.Container.{Cgroups}
use ingraind.Aggregations.Exec as Exec
use ingraind.Aggregations.Regex as Regex
use ingraind.Aggregations.Regex.{Matcher}
use ingraind.Aggregations.SystemDetails as SystemDetails
use ingraind.Aggregations.Whitelist as Whitelist
use ingraind.Aggregations.Whitelist.{Whitelist, contains}
use ingraind.Pipeline.{
  Stage, Recipient, backend, stage, system_details_stage, buffer_stage, container_stage, exec_stage,
  regex_stage, whitelist_stage,
}
use ingraind.Pipeline.Chain.{chain}

-- what a handler reads of the time, and the next timer's handle
pub record Tick : Type 0 where
  pub now : ℕ
  pub stamp : ℕ
  pub fresh : ℕ

-- the messages among the requests of an actor
abbrev pub messages : {F : Type 0} → List (Request F) → List (Message F)
messages [] = []
messages (cancel_future n ∷ rs) = messages rs
messages (run_later n ∷ rs) = messages rs
messages (do_send msg ∷ rs) = msg ∷ messages rs

module _ {F H R : Type 0} ⦃fl : Float F⦄ ⦃h : Hasher⦄ ⦃hist : Histogram F H⦄ ⦃re : Matcher R⦄
    ⦃cg : Cgroups⦄ where
  -- the stage behind a message, and what it sends on
  unfoldable pub handle : Tick → Stage F H R → Message F → Run (Stage F H R × List (Message F))
  handle t (system_details_stage s) msg =
      ok (system_details_stage s, SystemDetails.handle s msg ∷ [])
  handle t (buffer_stage b) msg =
      Schedule.handle t.now t.stamp t.fresh msg b >>= λ r. ok (buffer_stage (r.0), messages r.1)
  handle t container_stage msg = ok (container_stage, Container.handle msg ∷ [])
  handle t (exec_stage e) msg = Exec.handle e msg >>= λ r. ok (exec_stage e, r.1 ∷ [])
  handle t (regex_stage rules) msg = ok (regex_stage rules, Regex.handle rules msg ∷ [])
  handle t (whitelist_stage w) msg = ok (whitelist_stage w, Whitelist.handle w msg ∷ [])

  -- messages one after the other
  unfoldable pub handle_all :
      Tick → Stage F H R → List (Message F) → Run (Stage F H R × List (Message F))
  unfolding handle
  handle_all t s [] = ok (s, [])
  handle_all t s (msg ∷ msgs) =
      handle t s msg >>= λ r. handle_all t r.0 msgs >>= λ q. ok (q.0, r.1 ++ q.1)

  -- the recipient behind messages, and what reaches the backend
  unfoldable pub deliver :
      {B : Type 0}
      → Tick
      → Recipient (Stage F H R) B
      → List (Message F)
      → Run (Recipient (Stage F H R) B × List (Message F))
  unfolding handle_all
  deliver t (backend b) msgs = ok (backend b, msgs)
  deliver t (stage s upstream) msgs =
      handle_all t s msgs >>= λ r. deliver t upstream r.1 >>= λ q. ok (stage r.0 q.0, q.1)
