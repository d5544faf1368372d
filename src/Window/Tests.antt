-- ===== src/Window/Tests.antt =====
-- Requests on small windows, and concrete cases of the theorems.
use ss_backend.Common.{◌≤◌, ◌≡◌, refl, true, some, [], ◌∷◌, arith}
use ss_backend.Window.{oldest, script, check_sliding_window}
use ss_backend.Window.Admits.{ask, ask_all, in_window, window_limited}
use ss_backend.Window.Retry.{retry_admitted}

window_limited_example :
    in_window 1_000 900
      (ask_all 1_000 2 (0 ∷ 400 ∷ 500 ∷ 1_000 ∷ []) (record { scores = []; log = [] })).log
    ≤ 2
window_limited_example =
    window_limited 1_000 2 (0 ∷ 400 ∷ 500 ∷ 1_000 ∷ []) 900
      (omega arith, (omega arith, (omega arith, (omega arith, tt))))

log_test :
    (ask_all 1_000 2 (0 ∷ 400 ∷ 500 ∷ 1_000 ∷ []) (record { scores = []; log = [] })).log
    ≡ 0 ∷ 400 ∷ 1_000 ∷ []
unfolding ask_all ask script
log_test = refl

retry_admitted_example :
    (check_sliding_window 2
      (some (script 1_000 2 1_500 (script 1_000 2 500 (0 ∷ 400 ∷ [])).1).0)).allowed
    ≡ true
unfolding check_sliding_window script oldest
retry_admitted_example =
    retry_admitted 1_000 2 500 1_500 (0 ∷ 400 ∷ []) (omega arith) (omega arith) refl (omega arith)
