-- ===== src/TlsDiscovery/Tests.antt =====
-- Three requests from one source within a window.
use deltix_server.Common.{ℕ, ◌≡◌, String, List, [], ◌∷◌, none}
use deltix_server.Auth.Limiter.{Limits, Windows}
use deltix_server.Auth.Limiter.Bounds.{attempt}
use deltix_server.TlsDiscovery.{get_certificate, answers, answers-eq}

abbrev limits : Limits
limits = record { max_attempts = 2; window_ms = 1000 }

abbrev history : List (String × ℕ × ℕ)
history = ("ip", 10, 10) ∷ ("ip", 20, 20) ∷ ("ip", 30, 30) ∷ []

abbrev no_windows : Windows
no_windows key = none

answers-eq_example :
    answers
      (λ key tested counted_at. get_certificate limits tested counted_at key)
      history
      no_windows
    ≡ answers (λ key tested counted_at. attempt limits tested counted_at key) history no_windows
answers-eq_example = answers-eq limits history no_windows
