-- ===== src/Analyzer/Cases.antt =====
-- ikuzo/service/x/search/asciifold.go: the switch of `foldRune`. Its labels are hexadecimal numbers; a
-- rune below 128 is looked up as the character itself, and no label is a single character.
pub mod AtoH
pub mod LtoV
pub mod WtoSigns
use hub.Prelude.{ℕ, List, ◌++◌, Text}
use hub.Analyzer.Cases.AtoH.{cases_a, cases_c, cases_e, cases_h}
use hub.Analyzer.Cases.LtoV.{cases_l, cases_o, cases_q, cases_t}
use hub.Analyzer.Cases.WtoSigns.{cases_w, cases_2, cases_11, cases_signs}

unfoldable pub cases : List (List ℕ × Text)
cases =
    cases_a
    ++ (cases_c
        ++ (cases_e
            ++ (cases_h
                ++ (cases_l
                    ++ (cases_o
                        ++ (cases_q
                            ++ (cases_t
                                ++ (cases_w ++ (cases_2 ++ (cases_11 ++ cases_signs))))))))))
