-- ===== src/Tests/Pipelines.antt =====
-- The theorems of the pipelines at a configuration like that of the unit test of src/config.rs.
use ingraind.Prelude.{
  ℕ, ◌≡◌, refl, Text, chars, none, some, List, [], ◌∷◌, ok, try_map, text_equality,
}
use ingraind.Aggregations.Whitelist as Whitelist
use ingraind.Pipeline.{Aggregator, Stage, System, Pipeline, start_pipeline, launch}
use ingraind.Pipeline.Chain.{chain, start_pipeline-chain}
use ingraind.Pipeline.Delivery.{Tick}
use ingraind.Aggregations.Container.{Cgroups}
use ingraind.Tests.Samples.{literal, whole_float, tag_count, largest}

instance abbrev pub machine : System
machine = record { now = 3; uname = some (chars "5.4"); get_fqdn = some (chars "host") }

abbrev pipeline : Pipeline ℕ
pipeline = record {
  backend = 9;
  steps =
      some (Aggregator.container ∷ Aggregator.whitelist (record { allow = chars "k1" ∷ [] }) ∷ []);
}

abbrev stages : List (Stage ℕ ℕ Text)
stages = Stage.container_stage ∷ Stage.whitelist_stage (record { allowed = chars "k1" ∷ [] }) ∷ []

steps_launch :
    try_map launch
      (Aggregator.container ∷ Aggregator.whitelist (record { allow = chars "k1" ∷ [] }) ∷ [])
    ≡ ok stages
unfolding try_map launch Whitelist.launch
steps_launch = refl

start_pipeline-chain_example : start_pipeline pipeline ≡ ok (chain stages 9)
start_pipeline-chain_example = start_pipeline-chain pipeline stages steps_launch

instance abbrev pub no_cgroups : Cgroups
no_cgroups = record {
  read_to_string = λ path. none;
  read_again = λ path. none;
  captures = λ s. none;
}

abbrev pub tick : Tick
tick = record { now = 5; stamp = 6; fresh = 1 }
