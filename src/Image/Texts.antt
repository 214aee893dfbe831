-- ===== src/Image/Texts.antt =====
-- The texts of kernel/process.c, as the bytes of their characters.
use os_curriculum_design.Prelude.{ℕ, List, [], ◌∷◌}

-- "hello from user process" and a line break.
abbrev pub hello_message : List ℕ
hello_message =
    104 ∷ 101 ∷ 108 ∷ 108 ∷ 111 ∷ 32 ∷ 102 ∷ 114 ∷ 111 ∷ 109 ∷ 32 ∷ 117 ∷ 115 ∷ 101 ∷ 114 ∷ 32 ∷ 112
    ∷ 114 ∷ 111 ∷ 99 ∷ 101 ∷ 115 ∷ 115 ∷ 10 ∷ []

-- "busy step 1" and a line break.
abbrev pub busy_step_1 : List ℕ
busy_step_1 = 98 ∷ 117 ∷ 115 ∷ 121 ∷ 32 ∷ 115 ∷ 116 ∷ 101 ∷ 112 ∷ 32 ∷ 49 ∷ 10 ∷ []

-- "busy step 2" and a line break.
abbrev pub busy_step_2 : List ℕ
busy_step_2 = 98 ∷ 117 ∷ 115 ∷ 121 ∷ 32 ∷ 115 ∷ 116 ∷ 101 ∷ 112 ∷ 32 ∷ 50 ∷ 10 ∷ []

-- "busy step 3" and a line break.
abbrev pub busy_step_3 : List ℕ
busy_step_3 = 98 ∷ 117 ∷ 115 ∷ 121 ∷ 32 ∷ 115 ∷ 116 ∷ 101 ∷ 112 ∷ 32 ∷ 51 ∷ 10 ∷ []

-- "counter step 1" and a line break.
abbrev pub counter_step_1 : List ℕ
counter_step_1 =
    99 ∷ 111 ∷ 117 ∷ 110 ∷ 116 ∷ 101 ∷ 114 ∷ 32 ∷ 115 ∷ 116 ∷ 101 ∷ 112 ∷ 32 ∷ 49 ∷ 10 ∷ []

-- "counter step 2" and a line break.
abbrev pub counter_step_2 : List ℕ
counter_step_2 =
    99 ∷ 111 ∷ 117 ∷ 110 ∷ 116 ∷ 101 ∷ 114 ∷ 32 ∷ 115 ∷ 116 ∷ 101 ∷ 112 ∷ 32 ∷ 50 ∷ 10 ∷ []

-- "counter step 3" and a line break.
abbrev pub counter_step_3 : List ℕ
counter_step_3 =
    99 ∷ 111 ∷ 117 ∷ 110 ∷ 116 ∷ 101 ∷ 114 ∷ 32 ∷ 115 ∷ 116 ∷ 101 ∷ 112 ∷ 32 ∷ 51 ∷ 10 ∷ []

-- "spawner: hello child created" and a line break.
abbrev pub spawner_created : List ℕ
spawner_created =
    115 ∷ 112 ∷ 97 ∷ 119 ∷ 110 ∷ 101 ∷ 114 ∷ 58 ∷ 32 ∷ 104 ∷ 101 ∷ 108 ∷ 108 ∷ 111 ∷ 32 ∷ 99 ∷ 104
    ∷ 105 ∷ 108 ∷ 100 ∷ 32 ∷ 99 ∷ 114 ∷ 101 ∷ 97 ∷ 116 ∷ 101 ∷ 100 ∷ 10 ∷ []

-- "spawner: exiting" and a line break.
abbrev pub spawner_exiting : List ℕ
spawner_exiting =
    115 ∷ 112 ∷ 97 ∷ 119 ∷ 110 ∷ 101 ∷ 114 ∷ 58 ∷ 32 ∷ 101 ∷ 120 ∷ 105 ∷ 116 ∷ 105 ∷ 110 ∷ 103 ∷ 10
    ∷ []

-- "pagerdemo: user process starts" and a line break.
abbrev pub pagerdemo_starts : List ℕ
pagerdemo_starts =
    112 ∷ 97 ∷ 103 ∷ 101 ∷ 114 ∷ 100 ∷ 101 ∷ 109 ∷ 111 ∷ 58 ∷ 32 ∷ 117 ∷ 115 ∷ 101 ∷ 114 ∷ 32 ∷ 112
    ∷ 114 ∷ 111 ∷ 99 ∷ 101 ∷ 115 ∷ 115 ∷ 32 ∷ 115 ∷ 116 ∷ 97 ∷ 114 ∷ 116 ∷ 115 ∷ 10 ∷ []

-- "pagerdemo: done, run pager to inspect victim trace" and a line break.
abbrev pub pagerdemo_done : List ℕ
pagerdemo_done =
    112 ∷ 97 ∷ 103 ∷ 101 ∷ 114 ∷ 100 ∷ 101 ∷ 109 ∷ 111 ∷ 58 ∷ 32 ∷ 100 ∷ 111 ∷ 110 ∷ 101 ∷ 44 ∷ 32
    ∷ 114 ∷ 117 ∷ 110 ∷ 32 ∷ 112 ∷ 97 ∷ 103 ∷ 101 ∷ 114 ∷ 32 ∷ 116 ∷ 111 ∷ 32 ∷ 105 ∷ 110 ∷ 115
    ∷ 112 ∷ 101 ∷ 99 ∷ 116 ∷ 32 ∷ 118 ∷ 105 ∷ 99 ∷ 116 ∷ 105 ∷ 109 ∷ 32 ∷ 116 ∷ 114 ∷ 97 ∷ 99 ∷ 101
    ∷ 10 ∷ []

-- "hello".
abbrev pub hello_name : List ℕ
hello_name = 104 ∷ 101 ∷ 108 ∷ 108 ∷ 111 ∷ []

-- "counter".
abbrev pub counter_name : List ℕ
counter_name = 99 ∷ 111 ∷ 117 ∷ 110 ∷ 116 ∷ 101 ∷ 114 ∷ []

-- "busy".
abbrev pub busy_name : List ℕ
busy_name = 98 ∷ 117 ∷ 115 ∷ 121 ∷ []

-- "spawner".
abbrev pub spawner_name : List ℕ
spawner_name = 115 ∷ 112 ∷ 97 ∷ 119 ∷ 110 ∷ 101 ∷ 114 ∷ []

-- "memalloc".
abbrev pub memalloc_name : List ℕ
memalloc_name = 109 ∷ 101 ∷ 109 ∷ 97 ∷ 108 ∷ 108 ∷ 111 ∷ 99 ∷ []

-- "memtrack".
abbrev pub memtrack_name : List ℕ
memtrack_name = 109 ∷ 101 ∷ 109 ∷ 116 ∷ 114 ∷ 97 ∷ 99 ∷ 107 ∷ []

-- "pagerdemo".
abbrev pub pagerdemo_name : List ℕ
pagerdemo_name = 112 ∷ 97 ∷ 103 ∷ 101 ∷ 114 ∷ 100 ∷ 101 ∷ 109 ∷ 111 ∷ []
