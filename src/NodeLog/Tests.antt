-- ===== src/NodeLog/Tests.antt =====
-- Runs of StripANSI, ParseLine and Process on lines that sing-box writes.
use rapido_go.Prelude.{ℕ, zero, suc, ◌+◌, arith, length, ◌≡◌, refl, none, some, List, [], ◌∷◌}
use rapido_go.Prelude.Bytes.{Bytes, bytes}
use rapido_go.NodeLog.{
  error, strip_ansi, parse_line, match_all, level_name, close_seconds, strip_from,
}
use rapido_go.NodeLog.Classify.{
  client_eof, mux_closed, dial_timeout, classify, classify_dial, dial_line, classify_inbound,
  benign_tail, is_bad_handshake,
}
use rapido_go.NodeLog.Colour.{Piece, plain, code, write, text_of, strip_ansi-write}
use rapido_go.NodeLog.Prefix.{error_name, write_line, parse_line-write}
use rapido_go.NodeLog.Capture.{new_capture, process, handle}
use rapido_go.NodeLog.Capture.Kept.{Line, kept, dropped, lines_of, fragments_of, process-kept}

unfoldable repeat : ℕ → Bytes → Bytes
repeat zero s = s
repeat (suc n) s = repeat n (b'a' ∷ s)

classify_mux :
    classify error (
      bytes "inbound/vless[main]: process connection from 1.2.3.4:5: mux connection closed: x: EOF")
    ≡ some mux_closed
unfolding classify classify_dial dial_line classify_inbound benign_tail is_bad_handshake
classify_mux = refl

classify_timeout :
    classify error (
      bytes
        "connection: open connection to 5.6.7.8:443 using outbound/direct[ger]: dial tcp 5.6.7.8:443: i/o timeout")
    ≡ some (dial_timeout (bytes "ger"))
unfolding classify classify_dial dial_line classify_inbound benign_tail is_bad_handshake
classify_timeout = refl

classify_kept : classify error (bytes "dns: exchange failed: EOF") ≡ none
unfolding classify classify_dial dial_line classify_inbound benign_tail is_bad_handshake
classify_kept = refl

-- "A" in red
abbrev red : List Piece
red = code (bytes "31") [] b'm' ∷ plain b'A' ∷ code (bytes "0") (bytes " ") b'm' ∷ []

strip_ansi-write_example : strip_ansi (write red) ≡ text_of red
strip_ansi-write_example =
    strip_ansi-write red
      (((refl, (refl, tt)), tt, refl), (refl, (((refl, tt), (refl, tt), refl), tt)))

abbrev timestamp : Bytes
timestamp = bytes "+0200 2026-01-02 03:04:05 "

parse_line-write_example :
    parse_line (write_line (some timestamp) error_name (bytes "0123") (bytes "gone"))
    ≡ some (error, bytes "gone")
parse_line-write_example =
    parse_line-write (some timestamp) error_name (bytes "0123") (bytes "gone")
      (
        refl,
        (
          refl,
          (
            refl,
            (
              refl,
              (
                refl,
                (
                  refl,
                  (
                    refl,
                    (
                      refl,
                      (
                        refl,
                        (
                          refl,
                          (
                            refl,
                            (
                              refl,
                              (
                                refl,
                                (
                                  refl,
                                  (
                                    refl,
                                    (
                                      refl,
                                      (
                                        refl,
                                        (
                                          refl,
                                          (
                                            refl,
                                            (
                                              refl,
                                              (refl, (refl, (refl, (refl, (refl, (refl, tt)))))),
                                            ),
                                          ),
                                        ),
                                      ),
                                    ),
                                  ),
                                ),
                              ),
                            ),
                          ),
                        ),
                      ),
                    ),
                  ),
                ),
              ),
            ),
          ),
        ),
      )
      (refl, (refl, (refl, (refl, tt))))

-- A line of noise, and one without a prefix.
abbrev lines : List Line
lines =
    record {
      starts = [];
      end = bytes "ERROR inbound/vless[m]: process connection from 1.2.3.4:5: EOF";
    }
    ∷ record { starts = []; end = bytes "hello" }
    ∷ []

-- Of the beginning of a long line, whose end cannot be read.
abbrev long_start : Bytes
long_start = repeat 16384 []

length-repeat : (n : ℕ) (s : Bytes) → length (repeat n s) ≡ n + length s
unfolding repeat
length-repeat zero s = omega arith
length-repeat (suc n) s = omega (arith, length-repeat n (b'a' ∷ s))

process-kept_example :
    ((process new_capture [] (fragments_of lines (long_start ∷ []))).out
      ≡ kept (lines_of lines (long_start ∷ [])))
    × ((process new_capture [] (fragments_of lines (long_start ∷ []))).counted
        ≡ dropped (lines_of lines (long_start ∷ [])))
process-kept_example =
    process-kept new_capture lines (long_start ∷ []) (tt, (tt, tt))
      (omega (arith, length-repeat 16384 []), tt)

process-fragments :
    ((process new_capture [] (fragments_of lines [])).out ≡ bytes "hello" ∷ [])
    × ((process new_capture [] (fragments_of lines [])).counted ≡ client_eof ∷ [])
unfolding process fragments_of handle strip_ansi parse_line match_all level_name close_seconds
    strip_from classify classify_dial dial_line classify_inbound benign_tail is_bad_handshake
process-fragments = (refl, refl)
