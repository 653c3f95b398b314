-- ===== src/Session/Pipeline/Nonces.antt =====
-- The RTP IVs of packets with different indices.
use meowcaller.Base.{ℕ, ◌≡◌, ◌≢◌, arith, length, Bytes, IsU32, IsBytes}
use meowcaller.Srtp.Roc.Exact.{IsIndex, seq_of, roc_of}
use meowcaller.Srtp.E2e.{build_e2e_rtp_iv}
use meowcaller.Srtp.E2e.Iv.{build_iv-injective}

-- Under one 14-byte salt the packets of two different 48-bit indices never share an IV, whatever
-- their 32-bit SSRCs.
pub packet_ivs_distinct :
    (salt : Bytes) (ssrc ssrc' i j : ℕ)
    → IsBytes salt
    → length salt ≡ 14
    → IsU32 ssrc
    → IsU32 ssrc'
    → IsIndex i
    → IsIndex j
    → i ≢ j
    → build_e2e_rtp_iv salt ssrc (roc_of i) (seq_of i)
      ≢ build_e2e_rtp_iv salt ssrc' (roc_of j) (seq_of j)
packet_ivs_distinct salt ssrc ssrc' i j hs len h₁ h₂ bi bj differ e =
    let (_, roc, seq) =
      build_iv-injective salt ssrc (roc_of i) (seq_of i) ssrc' (roc_of j) (seq_of j) hs len h₁
        (omega arith) (omega arith) h₂ (omega arith) (omega arith) e in
    differ (omega (arith, roc, seq))
