-- ===== src/Tests/Server.antt =====
-- Runs of the middlewares.
use go_fibe.Base.{List, [], ◌∷◌, ◌≡◌, refl, true, false}
use go_fibe.Strings.{str, ◌==◌}
use go_fibe.Http.{new_writer}
use go_fibe.Config.{allows_all_origins}
use go_fibe.Server.{pipeline, cors_headers, origin_allowed, up}
use go_fibe.Server.Pipeline.{pipeline_lem, AnsweredBy, cors_credentials}
use go_fibe.Event.{new_bus}
use go_fibe.Event.Invariant.{new_bus-IsSound}
use go_fibe.Server.Ordering.{Happening, publishes, reads, waits, watch, Goes, watch-IsInOrder}
use go_fibe.Tests.World.{idle_site, request, config}

pipeline_lem_example :
    AnsweredBy 120 up request new_writer idle_site (pipeline 120 up request new_writer idle_site)
pipeline_lem_example = pipeline_lem 120 up request new_writer idle_site refl

cors_credentials_example :
    (allows_all_origins config ≡ false)
    × (origin_allowed (str "https://a.test") config.cors_allowed_origins ≡ true)
    × ((cors_headers config (str "https://a.test") new_writer).header
          (str "Access-Control-Allow-Origin")
        ≡ str "https://a.test")
unfolding cors_headers ◌==◌ allows_all_origins origin_allowed
cors_credentials_example = cors_credentials config (str "https://a.test") refl

abbrev happenings : List Happening
happenings =
    publishes (str "a")
    ∷ reads
    ∷ waits
    ∷ publishes (str "b")
    ∷ publishes (str "c")
    ∷ reads
    ∷ reads
    ∷ []

watch-IsInOrder_example : Goes (watch new_writer happenings new_bus)
watch-IsInOrder_example = watch-IsInOrder new_writer happenings new_bus new_bus-IsSound
