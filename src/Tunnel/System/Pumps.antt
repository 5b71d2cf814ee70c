-- ===== src/Tunnel/System/Pumps.antt =====
-- The pumps that the spoke starts are of ids that the hub has given out.
use openspoke.Common.{ℕ, ◌≤◌, inl, inr, Bool-cases, Option, none, some, List, All}
use openspoke.Common.Eq.{nat_eq, list_eq}
use openspoke.Common.Dict.{get}
use openspoke.Common.Channel.{send}
use openspoke.Common.Text.{Text}
use openspoke.Wire.{ServerFrame, ServerKind}
use openspoke.Client.Config.{ClientConfig}
use openspoke.Client.Session
use openspoke.Client.Session.{
  Session, Handled, Spawned, goes_on, fails, handle_frame, send_hub, open_known, target_name,
  answer_challenge,
}
use openspoke.Tunnel.System.{started_pumps}
use openspoke.Tunnel.System.Log.{KindGiven, IsGiven}

-- The task that a frame starts.
abbrev pub spawned_of : Handled → Option Spawned
spawned_of (goes_on s p) = p
spawned_of (fails e s) = none

module _ (last j : ℕ) (pumps : List ℕ) (low : All (λ k. k ≤ last) pumps) where
  open_known-low :
      (debug : Text → Text) (name : Text) (o : Option Text) (s : Session)
      → j ≤ last
      → All (λ k. k ≤ last) (started_pumps (spawned_of (open_known debug j name o s)) pumps)
  open_known-low debug name none s le = low
  open_known-low debug name (some t) s le = (le, low)

  on_kind-low :
      (debug : Text → Text) (cfg : ClientConfig) (k : Option ServerKind) (s : Session)
      → KindGiven last j k
      → All (λ i. i ≤ last) (started_pumps (spawned_of (Session.on_kind debug cfg j k s)) pumps)
  unfolding send_hub send
  on_kind-low debug cfg (some (ServerKind.challenge c)) s g =
      elim (Bool-cases s.shared.hub.is_open) [ inl t ↦ simp t low | inr t ↦ simp t low ]
  on_kind-low debug cfg (some (ServerKind.open_stream o)) s g =
      open_known-low debug (target_name o) (get (target_name o) cfg.targets) s g
  on_kind-low debug cfg (some (ServerKind.payload p)) s g = low
  on_kind-low debug cfg (some (ServerKind.close_stream c)) s g = low
  on_kind-low debug cfg (some (ServerKind.ping t)) s g = low
  on_kind-low debug cfg (some (ServerKind.http_response r)) s g = low
  on_kind-low debug cfg none s g = low

pub handle_frame-low :
    (debug : Text → Text) (cfg : ClientConfig) (last : ℕ) (f : ServerFrame) (s : Session)
    (pumps : List ℕ)
    → IsGiven last f
    → All (λ k. k ≤ last) pumps
    → All (λ k. k ≤ last) (started_pumps (spawned_of (handle_frame debug cfg f s)) pumps)
unfolding handle_frame
handle_frame-low debug cfg last f s pumps g low =
    on_kind-low last f.stream_id pumps low debug cfg f.kind s g
