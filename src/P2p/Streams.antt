-- ===== src/P2p/Streams.antt =====
-- internal/p2p/stream_manager.go over internal/common/map.go: the streams to other peers that are
-- kept for reuse. The streams of libp2p are parameters.
pub mod Reuse
use dknet.Base.{
  ℕ, suc, String, Bool, true, false, List, [], ◌∷◌, Option, none, some, Result, ok, err, Error,
  wrapf, wrap_args, str, M, pure, lift, ◌>>=◌, ◌>>◌, if◌then◌else◌, wrapping, lookup, insert,
  delete,
}
use dknet.P2p.Types.{Bytes, Message}
use dknet.P2p.Network.{Transport, compresses}

-- SafeMap with texts as keys; its lock makes each operation one step
module _ {V : Type 0} where
  unfoldable pub set_key : String → V → List (String × V) → List (String × V)
  set_key key value entries = insert key value entries

  unfoldable pub get_key : String → List (String × V) → Option V
  get_key key entries = lookup key entries

  unfoldable pub remove_key : String → List (String × V) → List (String × V)
  remove_key key entries = delete key entries

-- one write to a stream
pub record Write : Type 0 where
  pub peer : String
  pub stream : ℕ
  pub written : Bool

-- StreamManager. A stream is named by the time at which it was opened; `writes` lists the writes, the
-- last one first.
pub record StreamManager : Type 0 where
  pub streams : List (String × ℕ)
  pub clock : ℕ
  pub writes : List Write

-- the host: at each time, whether the connection of a stream is closed, what opening a stream to a
-- peer gives, and what writing to a stream gives; `none` is no error
pub record Host : Type 0 where
  pub is_closed : ℕ → ℕ → Bool
  pub open_error : ℕ → String → Option Error
  pub write_error : ℕ → ℕ → Bytes → Option Error

module _ (n : Transport) (host : Host) where
  opened : String → Option Error → M StreamManager ℕ
  opened peer (some e) s = (err (wrap_args "failed to open new stream to %s" (str peer ∷ []) e), s)
  opened peer none s =
      (ok s.clock, record s { streams = set_key peer s.clock s.streams; clock = suc s.clock })

  -- createStream
  unfoldable pub create_stream : String → M StreamManager ℕ
  unfolding opened set_key
  create_stream peer s = opened peer (host.open_error s.clock peer) s

  cached : String → Option ℕ → M StreamManager ℕ
  cached peer none s = create_stream peer s
  cached peer (some c) s = if host.is_closed s.clock c then create_stream peer s else (ok c, s)

  -- getStream
  unfoldable pub get_stream : String → M StreamManager ℕ
  unfolding cached get_key create_stream
  get_stream peer s = cached peer (get_key peer s.streams) s

  log_write : String → ℕ → Option Error → M StreamManager (Unit {0})
  log_write peer c none s = (
    ok tt,
    record s {
      writes = record { peer = peer; stream = c; written = true } ∷ s.writes;
      clock = suc s.clock;
    },
  )
  log_write peer c (some e) s = (
    err (wrap_args "failed to write message to peer %s" (str peer ∷ []) e),
    record s {
      writes = record { peer = peer; stream = c; written = false } ∷ s.writes;
      streams = remove_key peer s.streams;
      clock = suc s.clock;
    },
  )

  -- WriteMsg, and what follows when it fails
  unfoldable pub write_frame : String → ℕ → Bytes → M StreamManager (Unit {0})
  unfolding log_write remove_key
  write_frame peer c bytes s = log_write peer c (host.write_error s.clock c bytes) s

  -- sendMessage
  unfoldable pub send_frame : String → Message → M StreamManager (Unit {0})
  send_frame peer m = do
    c ← get_stream peer
    bytes ← lift (wrapping "failed to compress message" (compresses n m))
    write_frame peer c bytes

  -- What goroutines of `SendMessage` do one after another. Two that run at once may both be given a
  -- stream before either writes to it, which is left out.
  unfoldable pub send_frames : List (String × Message) → StreamManager → StreamManager
  send_frames [] s = s
  send_frames ((peer, m) ∷ sent) s = send_frames sent (send_frame peer m s).1
