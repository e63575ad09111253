-- ===== src/Common/Gzip.antt =====
-- internal/common/gzip.go, on the writer and the reader of compress/gzip, which are parameters.
use dknet.Base.{Option, none, Result, ok, Error, ◌≡◌, refl, arith}
use dknet.P2p.Types.{Bytes}
use dknet.P2p.Network.{then_do}
use dknet.P2p.Host.{checked}

-- gzip.Writer on a buffer: the errors of writing and closing, and what the buffer holds then; and
-- gzip.NewReader and io.ReadAll
pub record GzipLib : Type 0 where
  pub write_error : Bytes → Option Error
  pub close_error : Bytes → Option Error
  pub compressed : Bytes → Bytes
  pub reader_error : Bytes → Option Error
  pub read_all : Bytes → Result Bytes

-- What compress/gzip documents: what was written without an error is read back.
pub record GzipLaws (lib : GzipLib) : Type 0 where
  pub reads : (bytes : Bytes) → lib.reader_error (lib.compressed bytes) ≡ none
  pub read-compressed : (bytes : Bytes) → lib.read_all (lib.compressed bytes) ≡ ok bytes

module _ (lib : GzipLib) where
  -- Gzip
  unfoldable pub gzip : Bytes → Result Bytes
  gzip bytes =
      then_do (checked (lib.write_error bytes))
        (λ _. then_do (checked (lib.close_error bytes)) (λ _. ok (lib.compressed bytes)))

  -- UnGzip
  unfoldable pub un_gzip : Bytes → Result Bytes
  un_gzip bytes = then_do (checked (lib.reader_error bytes)) (λ _. lib.read_all bytes)

  -- What Gzip gives, UnGzip gives back.
  pub un_gzip-gzip :
      GzipLaws lib → (bytes packed : Bytes) → gzip bytes ≡ ok packed → un_gzip packed ≡ ok bytes
  unfolding gzip un_gzip
  un_gzip-gzip laws bytes packed h =
      let same : lib.compressed bytes ≡ packed = ground arith in
      rw (← same) (rw (laws.reads bytes, laws.read-compressed bytes) refl)
