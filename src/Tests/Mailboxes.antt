-- ===== src/Tests/Mailboxes.antt =====
-- The theorems of the actors of a pipeline at a run of two stages: the first one adds the host's name,
-- and the second one lets only that tag through.
use ingraind.Prelude.{
  ℕ, ◌≡◌, refl, Text, chars, List, [], ◌∷◌, none, true, length, All, try_map, ◌++◌, text_beq,
}
use ingraind.Aggregations.Buffer.{
  measurement_key, record_measurement, record_all, record_counter, record_gauge, record_timer,
  record_set, record_histogram, value_of, key_beq, set_insert, set_value,
}
use ingraind.Aggregations.Buffer.Flush as Tables
use ingraind.Aggregations.Buffer.Schedule as Schedule
use ingraind.Prelude.Maps.{entry}
use ingraind.Metrics.Kind.{has}
use ingraind.Metrics.Units
use ingraind.Aggregations.Whitelist as Whitelist
use ingraind.Aggregations.SystemDetails as SystemDetails
use ingraind.Metrics
use ingraind.Metrics.Kind
use ingraind.Metrics.TagList
use ingraind.Metrics.Units.{MeasureUnit}
use ingraind.Backends.{Message, single}
use ingraind.Pipeline.{Stage, Recipient}
use ingraind.Pipeline.Delivery as Delivery
use ingraind.Pipeline.Delivery.{Tick, handle_all}
use ingraind.Pipeline.Mailboxes.{Actors, push, idle, got, handled, fired, behind, Steps, here, next}
use ingraind.Pipeline.Delivery.Whitelisted.{Allowed}
use ingraind.Pipeline.Mailboxes.Guarded.{Steps-Allowed}
use ingraind.Tests.Pipelines.{no_cgroups, tick}
use ingraind.Tests.Samples.{literal, whole_float, tag_count, largest}

abbrev stages : List (Stage ℕ ℕ Text)
stages =
    Stage.system_details_stage (record { host = chars "h"; kernel = chars "5.4" })
    ∷ Stage.whitelist_stage (record { allowed = chars "host" ∷ [] })
    ∷ []

abbrev numbered : ℕ → List (Text × Text) → Message ℕ
numbered n tags = single (Metrics.new n Kind.counter (chars "m") (MeasureUnit.count n) tags)

abbrev sent : List (Message ℕ)
sent = numbered 1 [] ∷ numbered 2 [] ∷ []

abbrev host_only : List (Message ℕ)
host_only =
    numbered 1 ((chars "host", chars "h") ∷ []) ∷ numbered 2 ((chars "host", chars "h") ∷ []) ∷ []

-- the stages with what waits for each, and what the backend got
abbrev running : List (Message ℕ) → List (Message ℕ) → List (Message ℕ) → Actors ℕ ℕ Text
running first second received =
    Recipient.stage
      (Stage.system_details_stage (record { host = chars "h"; kernel = chars "5.4" }), first)
      (Recipient.stage (Stage.whitelist_stage (record { allowed = chars "host" ∷ [] }), second)
        (Recipient.backend received))

abbrev added : ℕ → Message ℕ
added n = numbered n ((chars "host", chars "h") ∷ (chars "kernel", chars "5.4") ∷ [])

abbrev host_whitelist : Whitelist.Whitelist
host_whitelist = record { allowed = chars "host" ∷ [] }

abbrev buffered : List (Stage ℕ ℕ Text)
buffered =
    Stage.buffer_stage (
      Schedule.launch 0
        (record { interval_ms = 1000; interval_s = none; enable_histograms = true }))
    ∷ []

abbrev late : Tick
late = record { now = 2000; stamp = 9; fresh = 1 }

-- The buffer counts a message with a tag that is not allowed, its timer fires, and the whitelist handles
-- what it sends.
flushed :
    (a : Actors ℕ ℕ Text) × Steps 3
      (push (added 1 ∷ []) (idle (buffered ++ Stage.whitelist_stage host_whitelist ∷ [])))
      a
    × (length (got a) ≡ 1)
unfolding Delivery.handle Schedule.launch Schedule.period Schedule.handle Schedule.flush_if_needed
    Schedule.flush Schedule.schedule_next_flush Schedule.send_list Tables.flush Tables.flush_number
    Tables.flush_timer Tables.flush_set Tables.flush_histogram Tables.flat_map try_map Units.to_unit
    record_all record_measurement record_counter record_gauge record_timer record_set
    record_histogram value_of key_beq set_insert set_value has text_beq entry measurement_key
    Units.get Units.get_type Whitelist.handle Whitelist.filter_tags
flushed = (
  _,
  next (handled tick refl) (next (fired late refl) (next (behind (handled tick refl)) here)),
  refl,
)

Steps-Allowed_example : All (Allowed host_whitelist) (got flushed.0)
Steps-Allowed_example = Steps-Allowed host_whitelist buffered [] (added 1 ∷ []) tt flushed.1
