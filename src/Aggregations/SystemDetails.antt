-- ===== src/Aggregations/SystemDetails.antt =====
-- src/aggregations/systemdetails.rs: the host and the kernel are added to the tags. `uname` and
-- `get_fqdn` of redbpf are arguments of `launch`.
use ingraind.Prelude.{
  ◌≡◌, Text, Option, none, some, map, if◌then◌else◌, ◌==◌, text_equality, chars, ◌∙◌, ap, Run, ok,
  ◌>>=◌, unwrap,
}
use ingraind.Backends.{Message, for_each, measurements, map-for_each}
use ingraind.Metrics.{Measurement}
use ingraind.Metrics.TagList
use ingraind.Metrics.TagList.{Tags, get, or_else, get-insert}

pub record AddSystemDetails : Type 0 where
  pub host : Text
  pub kernel : Text

-- the release that `uname` reads and the name that `get_fqdn` finds; without one `launch` panics
unfoldable pub launch : Option Text → Option Text → Run AddSystemDetails
launch uname fqdn = do
  kernel ← unwrap uname
  host ← unwrap fqdn
  ok (record { host = host; kernel = kernel })

module _ {F : Type 0} where
  unfoldable pub add_tags : Text → Text → Measurement F → Measurement F
  add_tags host kernel msg = record msg {
    tags = TagList.insert (chars "kernel") kernel (TagList.insert (chars "host") host msg.tags);
  }

  unfoldable pub handle : AddSystemDetails → Message F → Message F
  handle s msg = for_each (add_tags s.host s.kernel) msg

  -- the value that is found under a key behind the step: one that the measurement had comes first
  abbrev pub found : AddSystemDetails → Text → Measurement F → Option Text
  found s k m =
      or_else (or_else (get k m.tags) (if chars "host" == k then some s.host else none))
        (if chars "kernel" == k then some s.kernel else none)

  pub get-add_tags :
      (s : AddSystemDetails) (k : Text) (m : Measurement F)
      → get k (add_tags s.host s.kernel m).tags ≡ found s k m
  unfolding add_tags
  get-add_tags s k m =
      get-insert k (chars "kernel") s.kernel (TagList.insert (chars "host") s.host m.tags)
      ∙ ap (λ o. or_else o (if chars "kernel" == k then some s.kernel else none))
          (get-insert k (chars "host") s.host m.tags)

  -- Of every measurement that goes through, in its place, all values are found as before, the host
  -- and the kernel where there was none under their keys.
  pub system_tags :
      (s : AddSystemDetails) (msg : Message F) (k : Text)
      → map (λ m. get k m.tags) (measurements (handle s msg)) ≡ map (found s k) (measurements msg)
  unfolding handle
  system_tags s msg k =
      map-for_each (λ m. get k m.tags) (add_tags s.host s.kernel) (found s k) (get-add_tags s k) msg
