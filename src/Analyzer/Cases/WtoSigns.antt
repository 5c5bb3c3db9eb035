-- ===== src/Analyzer/Cases/WtoSigns.antt =====
-- ikuzo/service/x/search/asciifold.go: cases of the switch of `foldRune`, the runes of each and what
-- they are written as.
use hub.Prelude.{ℕ, List, [], ◌∷◌, Text, codes}

abbrev pub cases_w : List (List ℕ × Text)
cases_w =
    (0x24b1 ∷ [], codes "(v)")
    ∷ (0xa761 ∷ [], codes "vy")
    ∷ (
      0x174 ∷ 0x1f7 ∷ 0x1d21 ∷ 0x1e80 ∷ 0x1e82 ∷ 0x1e84 ∷ 0x1e86 ∷ 0x1e88 ∷ 0x24cc ∷ 0x2c72 ∷ 0xff37
          ∷ [],
      codes "W",
    )
    ∷ (
      0x175 ∷ 0x1bf ∷ 0x28d ∷ 0x1e81 ∷ 0x1e83 ∷ 0x1e85 ∷ 0x1e87 ∷ 0x1e89 ∷ 0x1e98 ∷ 0x24e6 ∷ 0x2c73
          ∷ 0xff57 ∷ [],
      codes "w",
    )
    ∷ (0x24b2 ∷ [], codes "(w)")
    ∷ (0x1e8a ∷ 0x1e8c ∷ 0x24cd ∷ 0xff38 ∷ [], codes "X")
    ∷ (0x1d8d ∷ 0x1e8b ∷ 0x1e8d ∷ 0x2093 ∷ 0x24e7 ∷ 0xff58 ∷ [], codes "x")
    ∷ (0x24b3 ∷ [], codes "(x)")
    ∷ (
      0xdd ∷ 0x176 ∷ 0x178 ∷ 0x1b3 ∷ 0x232 ∷ 0x24e ∷ 0x28f ∷ 0x1e8e ∷ 0x1ef2 ∷ 0x1ef4 ∷ 0x1ef6
          ∷ 0x1ef8 ∷ 0x1efe ∷ 0x24ce ∷ 0xff39 ∷ [],
      codes "Y",
    )
    ∷ (
      0xfd ∷ 0xff ∷ 0x177 ∷ 0x1b4 ∷ 0x233 ∷ 0x24f ∷ 0x28e ∷ 0x1e8f ∷ 0x1e99 ∷ 0x1ef3 ∷ 0x1ef5
          ∷ 0x1ef7 ∷ 0x1ef9 ∷ 0x1eff ∷ 0x24e8 ∷ 0xff59 ∷ [],
      codes "y",
    )
    ∷ (0x24b4 ∷ [], codes "(y)")
    ∷ (
      0x179 ∷ 0x17b ∷ 0x17d ∷ 0x1b5 ∷ 0x21c ∷ 0x224 ∷ 0x1d22 ∷ 0x1e90 ∷ 0x1e92 ∷ 0x1e94 ∷ 0x24cf
          ∷ 0x2c6b ∷ 0xa762 ∷ 0xff3a ∷ [],
      codes "Z",
    )
    ∷ (
      0x17a ∷ 0x17c ∷ 0x17e ∷ 0x1b6 ∷ 0x21d ∷ 0x225 ∷ 0x240 ∷ 0x290 ∷ 0x291 ∷ 0x1d76 ∷ 0x1d8e
          ∷ 0x1e91 ∷ 0x1e93 ∷ 0x1e95 ∷ 0x24e9 ∷ 0x2c6c ∷ 0xa763 ∷ 0xff5a ∷ [],
      codes "z",
    )
    ∷ (0x24b5 ∷ [], codes "(z)")
    ∷ (0x2070 ∷ 0x2080 ∷ 0x24ea ∷ 0x24ff ∷ 0xff10 ∷ [], codes "0")
    ∷ (0xb9 ∷ 0x2081 ∷ 0x2460 ∷ 0x24f5 ∷ 0x2776 ∷ 0x2780 ∷ 0x278a ∷ 0xff11 ∷ [], codes "1")
    ∷ (0x2488 ∷ [], codes "1.")
    ∷ (0x2474 ∷ [], codes "(1)")
    ∷ []

abbrev pub cases_2 : List (List ℕ × Text)
cases_2 =
    (0xb2 ∷ 0x2082 ∷ 0x2461 ∷ 0x24f6 ∷ 0x2777 ∷ 0x2781 ∷ 0x278b ∷ 0xff12 ∷ [], codes "2")
    ∷ (0x2489 ∷ [], codes "2.")
    ∷ (0x2475 ∷ [], codes "(2)")
    ∷ (0xb3 ∷ 0x2083 ∷ 0x2462 ∷ 0x24f7 ∷ 0x2778 ∷ 0x2782 ∷ 0x278c ∷ 0xff13 ∷ [], codes "3")
    ∷ (0x248a ∷ [], codes "3.")
    ∷ (0x2476 ∷ [], codes "(3)")
    ∷ (0x2074 ∷ 0x2084 ∷ 0x2463 ∷ 0x24f8 ∷ 0x2779 ∷ 0x2783 ∷ 0x278d ∷ 0xff14 ∷ [], codes "4")
    ∷ (0x248b ∷ [], codes "4.")
    ∷ (0x2477 ∷ [], codes "(4)")
    ∷ (0x2075 ∷ 0x2085 ∷ 0x2464 ∷ 0x24f9 ∷ 0x277a ∷ 0x2784 ∷ 0x278e ∷ 0xff15 ∷ [], codes "5")
    ∷ (0x248c ∷ [], codes "5.")
    ∷ (0x2478 ∷ [], codes "(5)")
    ∷ (0x2076 ∷ 0x2086 ∷ 0x2465 ∷ 0x24fa ∷ 0x277b ∷ 0x2785 ∷ 0x278f ∷ 0xff16 ∷ [], codes "6")
    ∷ (0x248d ∷ [], codes "6.")
    ∷ (0x2479 ∷ [], codes "(6)")
    ∷ (0x2077 ∷ 0x2087 ∷ 0x2466 ∷ 0x24fb ∷ 0x277c ∷ 0x2786 ∷ 0x2790 ∷ 0xff17 ∷ [], codes "7")
    ∷ (0x248e ∷ [], codes "7.")
    ∷ (0x247a ∷ [], codes "(7)")
    ∷ (0x2078 ∷ 0x2088 ∷ 0x2467 ∷ 0x24fc ∷ 0x277d ∷ 0x2787 ∷ 0x2791 ∷ 0xff18 ∷ [], codes "8")
    ∷ (0x248f ∷ [], codes "8.")
    ∷ (0x247b ∷ [], codes "(8)")
    ∷ (0x2079 ∷ 0x2089 ∷ 0x2468 ∷ 0x24fd ∷ 0x277e ∷ 0x2788 ∷ 0x2792 ∷ 0xff19 ∷ [], codes "9")
    ∷ (0x2490 ∷ [], codes "9.")
    ∷ (0x247c ∷ [], codes "(9)")
    ∷ (0x2469 ∷ 0x24fe ∷ 0x277f ∷ 0x2789 ∷ 0x2793 ∷ [], codes "10")
    ∷ (0x2491 ∷ [], codes "10.")
    ∷ (0x247d ∷ [], codes "(10)")
    ∷ (0x246a ∷ 0x24eb ∷ [], codes "11")
    ∷ []

abbrev pub cases_11 : List (List ℕ × Text)
cases_11 =
    (0x2492 ∷ [], codes "11.")
    ∷ (0x247e ∷ [], codes "(11)")
    ∷ (0x246b ∷ 0x24ec ∷ [], codes "12")
    ∷ (0x2493 ∷ [], codes "12.")
    ∷ (0x247f ∷ [], codes "(12)")
    ∷ (0x246c ∷ 0x24ed ∷ [], codes "13")
    ∷ (0x2494 ∷ [], codes "13.")
    ∷ (0x2480 ∷ [], codes "(13)")
    ∷ (0x246d ∷ 0x24ee ∷ [], codes "14")
    ∷ (0x2495 ∷ [], codes "14.")
    ∷ (0x2481 ∷ [], codes "(14)")
    ∷ (0x246e ∷ 0x24ef ∷ [], codes "15")
    ∷ (0x2496 ∷ [], codes "15.")
    ∷ (0x2482 ∷ [], codes "(15)")
    ∷ (0x246f ∷ 0x24f0 ∷ [], codes "16")
    ∷ (0x2497 ∷ [], codes "16.")
    ∷ (0x2483 ∷ [], codes "(16)")
    ∷ (0x2470 ∷ 0x24f1 ∷ [], codes "17")
    ∷ (0x2498 ∷ [], codes "17.")
    ∷ (0x2484 ∷ [], codes "(17)")
    ∷ (0x2471 ∷ 0x24f2 ∷ [], codes "18")
    ∷ (0x2499 ∷ [], codes "18.")
    ∷ (0x2485 ∷ [], codes "(18)")
    ∷ (0x2472 ∷ 0x24f3 ∷ [], codes "19")
    ∷ (0x249a ∷ [], codes "19.")
    ∷ (0x2486 ∷ [], codes "(19)")
    ∷ (0x2473 ∷ 0x24f4 ∷ [], codes "20")
    ∷ (0x249b ∷ [], codes "20.")
    ∷ (0x2487 ∷ [], codes "(20)")
    ∷ (
      0xab ∷ 0xbb ∷ 0x201c ∷ 0x201d ∷ 0x201e ∷ 0x2033 ∷ 0x2036 ∷ 0x275d ∷ 0x275e ∷ 0x276e ∷ 0x276f
          ∷ 0xff02 ∷ [],
      codes "\"",
    )
    ∷ []

abbrev pub cases_signs : List (List ℕ × Text)
cases_signs =
    (
      0x2018 ∷ 0x2019 ∷ 0x201a ∷ 0x201b ∷ 0x2032 ∷ 0x2035 ∷ 0x2039 ∷ 0x203a ∷ 0x275b ∷ 0x275c
          ∷ 0xff07 ∷ [],
      codes "'",
    )
    ∷ (0x2010 ∷ 0x2011 ∷ 0x2012 ∷ 0x2013 ∷ 0x2014 ∷ 0x207b ∷ 0x208b ∷ 0xff0d ∷ [], codes "-")
    ∷ (0x2045 ∷ 0x2772 ∷ 0xff3b ∷ [], codes "[")
    ∷ (0x2046 ∷ 0x2773 ∷ 0xff3d ∷ [], codes "]")
    ∷ (0x207d ∷ 0x208d ∷ 0x2768 ∷ 0x276a ∷ 0xff08 ∷ [], codes "(")
    ∷ (0x2e28 ∷ [], codes "((")
    ∷ (0x207e ∷ 0x208e ∷ 0x2769 ∷ 0x276b ∷ 0xff09 ∷ [], codes ")")
    ∷ (0x2e29 ∷ [], codes "))")
    ∷ (0x276c ∷ 0x2770 ∷ 0xff1c ∷ [], codes "<")
    ∷ (0x276d ∷ 0x2771 ∷ 0xff1e ∷ [], codes ">")
    ∷ (0x2774 ∷ 0xff5b ∷ [], codes "{")
    ∷ (0x2775 ∷ 0xff5d ∷ [], codes "}")
    ∷ (0x207a ∷ 0x208a ∷ 0xff0b ∷ [], codes "+")
    ∷ (0x207c ∷ 0x208c ∷ 0xff1d ∷ [], codes "=")
    ∷ (0xff01 ∷ [], codes "!")
    ∷ (0x203c ∷ [], codes "!!")
    ∷ (0x2049 ∷ [], codes "!?")
    ∷ (0xff03 ∷ [], codes "#")
    ∷ (0xff04 ∷ [], codes "$")
    ∷ (0x2052 ∷ 0xff05 ∷ [], codes "%")
    ∷ (0xff06 ∷ [], codes "&")
    ∷ (0x204e ∷ 0xff0a ∷ [], codes "*")
    ∷ (0xff0c ∷ [], codes ",")
    ∷ (0xff0e ∷ [], codes ".")
    ∷ (0x2044 ∷ 0xff0f ∷ [], codes "/")
    ∷ (0xff1a ∷ [], codes ":")
    ∷ (0x204f ∷ 0xff1b ∷ [], codes ";")
    ∷ (0xff1f ∷ [], codes "?")
    ∷ (0x2047 ∷ [], codes "??")
    ∷ (0x2048 ∷ [], codes "?!")
    ∷ (0xff20 ∷ [], codes "@")
    ∷ (0xff3c ∷ [], codes "\\")
    ∷ (0x2038 ∷ 0xff3e ∷ [], codes "^")
    ∷ (0xff3f ∷ [], codes "_")
    ∷ (0x2053 ∷ 0xff5e ∷ [], codes "~")
    ∷ []
