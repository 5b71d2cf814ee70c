-- ===== src/Client/Live/Same.antt =====
-- A session in which nothing happens beside the loop over the hub's frames.
use openspoke.Common.{◌≡◌, refl, ap, List, [], ◌∷◌, map, Result, ok, err}
use openspoke.Common.Text.{Text}
use openspoke.Wire.{ServerFrame}
use openspoke.Client.Config.{ClientConfig}
use openspoke.Client.Session.{
  Session, Handled, goes_on, fails, handle_frame, Ended, add_spawned, session_loop,
}
use openspoke.Client.Live.{Input, from_hub, on_input, and_then, live_loop}

module _ (debug : Text → Text) (cfg : ClientConfig) where
  same_after :
      (h : Handled) (is : List Input) (fs : List (Result Text ServerFrame))
      → ((s : Session) → live_loop debug cfg is s ≡ session_loop debug cfg fs s)
      → let e : Ended = elim h [
        | goes_on s t ↦ add_spawned t (session_loop debug cfg fs s)
        | fails x s ↦ record { session = s; spawned = []; result = err x }
      ] in
        and_then h (live_loop debug cfg is) ≡ e
  same_after (goes_on s t) is fs rest = ap (add_spawned t) (rest s)
  same_after (fails x s) is fs rest = refl

  -- With no other input than what the hub's stream delivers, a live session is the loop over it.
  pub live_loop-session_loop :
      (fs : List (Result Text ServerFrame)) (s : Session)
      → live_loop debug cfg (map from_hub fs) s ≡ session_loop debug cfg fs s
  unfolding live_loop session_loop on_input
  live_loop-session_loop [] s = refl
  live_loop-session_loop (err e ∷ fs) s = refl
  live_loop-session_loop (ok f ∷ fs) s =
      same_after (handle_frame debug cfg f s) (map from_hub fs) fs (live_loop-session_loop fs)
