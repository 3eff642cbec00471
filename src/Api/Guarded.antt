-- ===== src/Api/Guarded.antt =====
-- internal/httpapi/server.go: an alert is pushed with the internal key only.
use traffic_analysis.Base.{
  false, not, ◌&&◌, ◌==◌, ltb, leb, ◌≡◌, ◌≢◌, refl, ◌∙◌, arith, ap, eq_iff, if-false,
}
use traffic_analysis.Driving.{automate, created_event_id}
use traffic_analysis.Api.{Request, Reply, Site, Server, require_internal_key, write_error}
use traffic_analysis.Api.Encode.{body_fields}
use traffic_analysis.Api.Hooks.{after_creation, with_driving_mode_automation}
use traffic_analysis.Api.Internal.{internal_event_push}
use traffic_analysis.Api.Routes.{handler_of, post_event_push}

module _ (x : Site) where
  -- After an answer of no success nothing is automated.
  pub after_creation_failed :
      (r : Request) (s : Server) (reply : Reply)
      → (leb 200 reply.code && ltb reply.code 300) ≡ false
      → after_creation x r (s, reply) ≡ (s, reply)
  unfolding after_creation automate
  after_creation_failed r s reply h =
      let id =
        created_event_id x.backend x.outside x.crew (x.unmarshal r.body)
          (body_fields x reply.body) in
      let unanswered : (leb 200 reply.code && ltb reply.code 300 && not (id == "")) ≡ false =
        ground (arith, h) in
      ap (λ d. (record s { desk = d }, reply)) (if-false _ s.desk unanswered)

  -- Where an internal key is configured, a push whose header X-API-Key is not that key is answered
  -- with 401, and changes nothing: neither the store, nor what is published, nor driving mode, and
  -- no workflow is run.
  pub handler_of-refused :
      (r : Request) (s : Server)
      → x.internal_api_key ≢ ""
      → r.header "X-API-Key" ≢ x.internal_api_key
      → handler_of x post_event_push r s ≡ (s, write_error 401 "UNAUTHORIZED")
  unfolding handler_of with_driving_mode_automation internal_event_push require_internal_key
      write_error
  handler_of-refused r s configured other =
      let locked : require_internal_key x r ≡ false =
        ground
          (arith, eq_iff x.internal_api_key "", eq_iff (r.header "X-API-Key") x.internal_api_key) in
      ap (after_creation x r) (if-false _ _ locked)
      ∙ after_creation_failed r s (write_error 401 "UNAUTHORIZED") refl
