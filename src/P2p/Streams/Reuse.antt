-- ===== src/P2p/Streams/Reuse.antt =====
-- Which streams are used again.
use dknet.Base.{
  ℕ, suc, String, All, All-map, true, false, List, [], ◌∷◌, Option, none, some, Result, ok, err,
  Error, ◌≡◌, ◌<◌, ◌⊎◌, refl, arith, inl, inr, Bool-cases, lookup, lookup-insert, lookup-delete,
  eq_iff, ◌==◌, wrapping, continue, lift, ◌>>=◌,
}
use dknet.P2p.Types.{Bytes, Message}
use dknet.P2p.Network.{Transport, compresses}
use dknet.P2p.Streams.{
  Write, StreamManager, Host, create_stream, get_stream, write_frame, send_frame, send_frames,
  opened, cached, log_write, set_key, get_key, remove_key,
}

-- an earlier write to the same stream was for the same peer, and did not fail
abbrev pub Agrees : Write → Write → Type 0
Agrees later earlier =
    earlier.stream ≡ later.stream → (earlier.peer ≡ later.peer) × (earlier.written ≡ true)

abbrev pub Clean : List Write → Type 0
Clean [] = Unit
Clean (w ∷ ws) = All (Agrees w) ws × Clean ws

-- a write to a stream of that number was for the peer, and did not fail
abbrev Serves : String → ℕ → Write → Type 0
Serves peer c w = w.stream ≡ c → (w.peer ≡ peer) × (w.written ≡ true)

abbrev Older : ℕ → Write → Type 0
Older clock w = w.stream < clock

-- The writes so far are clean, and every stream that is kept may be used for its peer.
pub record IsTidy (s : StreamManager) : Type 0 where
  pub clean : Clean s.writes
  pub older : All (Older s.clock) s.writes
  pub known : (peer : String) (c : ℕ) → lookup peer s.streams ≡ some c → c < s.clock
  pub distinct :
      (p q : String) (c : ℕ) → lookup p s.streams ≡ some c → lookup q s.streams ≡ some c → p ≡ q
  pub serves :
      (peer : String) (c : ℕ) → lookup peer s.streams ≡ some c → All (Serves peer c) s.writes

-- What `getStream` hands out.
record Usable (peer : String) (c : ℕ) (s : StreamManager) : Type 0 where
  tidy : IsTidy s
  kept : lookup peer s.streams ≡ some c

Older-suc : (clock : ℕ) (ws : List Write) → All (Older clock) ws → All (Older (suc clock)) ws
Older-suc clock ws h = All-map (Older clock) (Older (suc clock)) (λ w p. omega arith) ws h

Older-Serves : (peer : String) (c : ℕ) (ws : List Write) → All (Older c) ws → All (Serves peer c) ws
Older-Serves peer c ws h = All-map (Older c) (Serves peer c) (λ w p e. absurd (omega arith)) ws h

newest_distinct :
    (peer : String) (s : StreamManager)
    → IsTidy s
    → (p q : String) (c : ℕ) → ((peer == p) ≡ true) ⊎ ((peer == p) ≡ false)
    → ((peer == q) ≡ true) ⊎ ((peer == q) ≡ false)
    → lookup p (set_key peer s.clock s.streams) ≡ some c
    → lookup q (set_key peer s.clock s.streams) ≡ some c
    → p ≡ q
unfolding set_key
newest_distinct peer s t p q c (inl a) (inl b) h k = ground (arith, eq_iff peer p, eq_iff peer q)
newest_distinct peer s t p q c (inl a) (inr b) h k =
    let older = t.known q c (ground (arith, lookup-insert peer q s.clock s.streams)) in
    absurd (ground (arith, lookup-insert peer p s.clock s.streams))
newest_distinct peer s t p q c (inr a) (inl b) h k =
    let older = t.known p c (ground (arith, lookup-insert peer p s.clock s.streams)) in
    absurd (ground (arith, lookup-insert peer q s.clock s.streams))
newest_distinct peer s t p q c (inr a) (inr b) h k =
    t.distinct p q c (ground (arith, lookup-insert peer p s.clock s.streams))
      (ground (arith, lookup-insert peer q s.clock s.streams))

module _ (n : Transport) (host : Host) where
  create_stream-IsTidy :
      (peer : String) (s : StreamManager) (e : Option Error)
      → IsTidy s
      → IsTidy (opened n host peer e s).1
        × ((c : ℕ) → (opened n host peer e s).0 ≡ ok c → Usable peer c (opened n host peer e s).1)
  unfolding opened set_key
  create_stream-IsTidy peer s (some e) t = (t, λ c h. absurd (ground arith))
  create_stream-IsTidy peer s none t =
      let tidy : IsTidy (opened n host peer none s).1 = record {
        clean = t.clean;
        older = Older-suc s.clock s.writes t.older;
        known = λ q c h. elim (Bool-cases (peer == q)) [
          | inl e ↦ ground (arith, lookup-insert peer q s.clock s.streams)
          | inr e ↦
              let older : c < s.clock =
                t.known q c (ground (arith, lookup-insert peer q s.clock s.streams)) in
              omega arith
        ];
        distinct = λ p q c h k.
            newest_distinct peer s t p q c (Bool-cases (peer == p)) (Bool-cases (peer == q)) h k;
        serves = λ q c h. elim (Bool-cases (peer == q)) [
          | inl e ↦
              let same : s.clock ≡ c = ground (arith, lookup-insert peer q s.clock s.streams) in
              rw (← same) (Older-Serves q s.clock s.writes t.older)
          | inr e ↦ t.serves q c (ground (arith, lookup-insert peer q s.clock s.streams))
        ];
      } in
      (
        tidy,
        λ c h. record {
          tidy = tidy;
          kept = ground (arith, lookup-insert peer peer s.clock s.streams, eq_iff peer peer);
        },
      )

  get_stream-IsTidy :
      (peer : String) (s : StreamManager) (o : Option ℕ)
      → IsTidy s
      → lookup peer s.streams ≡ o
      → IsTidy (cached n host peer o s).1
        × ((c : ℕ) → (cached n host peer o s).0 ≡ ok c → Usable peer c (cached n host peer o s).1)
  unfolding cached create_stream
  get_stream-IsTidy peer s none t h = create_stream-IsTidy peer s (host.open_error s.clock peer) t
  get_stream-IsTidy peer s (some c) t h = elim (Bool-cases (host.is_closed s.clock c)) [
    | inl e ↦ rw e (create_stream-IsTidy peer s (host.open_error s.clock peer) t)
    | inr e ↦ rw e (
      t,
      λ d same. let equal : c ≡ d = ground arith in record { tidy = t; kept = rw (← equal) h },
    )
  ]

  write_frame-IsTidy :
      (peer : String) (c : ℕ) (s : StreamManager) (e : Option Error)
      → Usable peer c s
      → IsTidy (log_write n host peer c e s).1
  unfolding log_write remove_key
  write_frame-IsTidy peer c s none u =
      let t = u.tidy in
      record {
        clean = (t.serves peer c u.kept, t.clean);
        older = (let k = t.known peer c u.kept in omega arith, Older-suc s.clock s.writes t.older);
        known = λ q d h. let k = t.known q d h in omega arith;
        distinct = t.distinct;
        serves = λ q d h. (λ same. (t.distinct peer q c u.kept (rw same h), refl), t.serves q d h);
      }
  write_frame-IsTidy peer c s (some e) u =
      let t = u.tidy in
      record {
        clean = (t.serves peer c u.kept, t.clean);
        older = (let k = t.known peer c u.kept in omega arith, Older-suc s.clock s.writes t.older);
        known = λ q d h.
            let k = t.known q d (ground (arith, lookup-delete peer q s.streams)) in omega arith;
        distinct = λ p q d h k.
            t.distinct p q d (ground (arith, lookup-delete peer p s.streams))
              (ground (arith, lookup-delete peer q s.streams));
        serves = λ q d h. (
          λ same.
              let old : lookup q s.streams ≡ some d =
                ground (arith, lookup-delete peer q s.streams) in
              let shared : peer ≡ q = t.distinct peer q c u.kept (rw same old) in
              absurd (ground (arith, lookup-delete peer q s.streams, eq_iff peer q)),
          t.serves q d (ground (arith, lookup-delete peer q s.streams)),
        );
      }

  framed :
      (peer : String) (c : ℕ) (r : Result Bytes) (s : StreamManager)
      → Usable peer c s
      → IsTidy (continue r (λ bytes. write_frame n host peer c bytes) s).1
  unfolding write_frame
  framed peer c (ok bytes) s u = write_frame-IsTidy peer c s (host.write_error s.clock c bytes) u
  framed peer c (err e) s u = u.tidy
  framed peer c Result.panics s u = u.tidy

  streamed :
      (peer : String) (compressed : Result Bytes) (r : Result ℕ) (s : StreamManager)
      → IsTidy s × ((c : ℕ) → r ≡ ok c → Usable peer c s)
      → IsTidy (continue r (λ c. lift compressed >>= write_frame n host peer c) s).1
  streamed peer compressed (ok c) s (t, usable) = framed peer c compressed s (usable c refl)
  streamed peer compressed (err e) s (t, usable) = t
  streamed peer compressed Result.panics s (t, usable) = t

  send_frame-IsTidy :
      (peer : String) (m : Message) (s : StreamManager)
      → IsTidy s
      → IsTidy (send_frame n host peer m s).1
  unfolding send_frame get_stream get_key
  send_frame-IsTidy peer m s t =
      streamed peer (wrapping "failed to compress message" (compresses n m))
        (get_stream n host peer s).0 (get_stream n host peer s).1
        (get_stream-IsTidy peer s (lookup peer s.streams) t refl)

  -- Whatever messages are sent one after another to whatever peers, and whatever fails: a stream
  -- carries messages to the peer it was opened for only, none after a write to it has failed, and
  -- the streams that are kept may be used so, if that held at the start.
  pub send_frames-IsTidy :
      (sent : List (String × Message)) (s : StreamManager)
      → IsTidy s
      → IsTidy (send_frames n host sent s)
  unfolding send_frames
  send_frames-IsTidy [] s t = t
  send_frames-IsTidy ((peer, m) ∷ sent) s t =
      send_frames-IsTidy sent (send_frame n host peer m s).1 (send_frame-IsTidy peer m s t)

-- the manager that `NewStreamManager` makes
abbrev pub new_stream_manager : StreamManager
new_stream_manager = record { streams = []; clock = 0; writes = [] }

pub new_stream_manager-IsTidy : IsTidy new_stream_manager
unfolding lookup
new_stream_manager-IsTidy = record {
  clean = tt;
  older = tt;
  known = λ p c h. absurd (ground arith);
  distinct = λ p q c h k. absurd (ground arith);
  serves = λ p c h. tt;
}
