-- ===== src/Net/Udp/Header.antt =====
-- dp/net/net.h and dp/net/udp.c: the IP header of a datagram that is sent.
use ix.Base.{ℕ, ◌+◌, ◌-◌, ◌%◌, ◌<◌, ◌≡◌, ap, ◌∙◌, arith}
use ix.Net.Chksum.{chksum_internet}
use ix.Net.Chksum.Fold.{ones, ones_complement}
use ix.Net.Chksum.Rfc.{chksum_internet_lem, sum16, AllBytes}
use ix.Net.Udp.{ip_setup_header, ip_with_chksum}

-- The header that is written for any protocol, addresses and length verifies at the receiver.
pub ip_with_chksum-ip_setup_header :
    (proto saddr daddr l4len : ℕ)
    → proto < 256
    → chksum_internet (ip_with_chksum (ip_setup_header proto saddr daddr l4len)) ≡ 0
unfolding ip_with_chksum ip_setup_header sum16 AllBytes
ip_with_chksum-ip_setup_header proto saddr daddr l4len h =
    let hdr = ip_setup_header proto saddr daddr l4len in
    let c = chksum_internet hdr in
    let b : (n : ℕ) → n % 256 < 256 = λ n. omega arith in
    let z : 0 < 256 = omega arith in
    let bytes : AllBytes hdr = (
      omega arith,
      (
        z,
        (
          b _,
          (
            b _,
            (
              z,
              (
                z,
                (
                  z,
                  (
                    z,
                    (
                      omega arith,
                      (h, (z, (z, (b _, (b _, (b _, (b _, (b _, (b _, (b _, (b _, tt))))))))))),
                    ),
                  ),
                ),
              ),
            ),
          ),
        ),
      ),
    ) in
    let e : c ≡ 65535 - ones (sum16 hdr) = chksum_internet_lem hdr bytes in
    let full : AllBytes (ip_with_chksum hdr) = (
      omega arith,
      (
        z,
        (
          b _,
          (
            b _,
            (
              z,
              (
                z,
                (
                  z,
                  (
                    z,
                    (
                      omega arith,
                      (
                        h,
                        (
                          b _,
                          (omega arith, (b _, (b _, (b _, (b _, (b _, (b _, (b _, (b _, tt))))))))),
                        ),
                      ),
                    ),
                  ),
                ),
              ),
            ),
          ),
        ),
      ),
    ) in
    chksum_internet_lem (ip_with_chksum hdr) full
    ∙ ap (λ n. 65535 - ones n) {y = sum16 hdr + c} (omega arith)
    ∙ ap (λ n. 65535 - ones (sum16 hdr + n)) e
    ∙ ones_complement (sum16 hdr)
