-- ===== src/Checks/Http.antt =====
-- The automaton on a request with one header field.
use ws_pi.Base.{◌≡◌, ◌↔◌, refl, List, [], ◌∷◌}
use ws_pi.Http.{
  CharClass, table, row, s_method, s_done, cc_alpha, cc_digit, cc_sp, cc_cr, cc_lf, cc_colon,
  cc_slash, cc_dot,
}
use ws_pi.Http.Run.{run, actions}
use ws_pi.Http.Request.{Request}
use ws_pi.Http.Request.Complete.{run-accepts-Request}
use ws_pi.Http.Actions.{count, count-actions-accepted}

-- `GET / HTTP/1.1`, `Host: x` and the empty line.
abbrev get_request : List CharClass
get_request =
    cc_alpha ∷ cc_alpha ∷ cc_alpha ∷ cc_sp ∷ cc_slash ∷ cc_sp ∷ cc_alpha ∷ cc_alpha ∷ cc_alpha
    ∷ cc_alpha ∷ cc_slash ∷ cc_digit ∷ cc_dot ∷ cc_digit ∷ cc_cr ∷ cc_lf ∷ cc_alpha ∷ cc_alpha
    ∷ cc_alpha ∷ cc_alpha ∷ cc_colon ∷ cc_sp ∷ cc_alpha ∷ cc_cr ∷ cc_lf ∷ cc_cr ∷ cc_lf ∷ []

get_request_accepted : run s_method get_request ≡ s_done
unfolding run table row
get_request_accepted = refl

run-accepts-Request_example : (run s_method get_request ≡ s_done) ↔ Request get_request
run-accepts-Request_example = run-accepts-Request get_request

count-actions-accepted_example :
    (count 1 (actions s_method get_request) ≡ 1)
    × (count 2 (actions s_method get_request) ≡ 1)
    × (count 3 (actions s_method get_request) ≡ 1)
    × (count 6 (actions s_method get_request) ≡ 1)
    × (count 4 (actions s_method get_request) ≡ count 5 (actions s_method get_request))
count-actions-accepted_example = count-actions-accepted get_request get_request_accepted
