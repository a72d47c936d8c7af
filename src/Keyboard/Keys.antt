-- ===== src/Keyboard/Keys.antt =====
-- The key codes of kernel/include/dev/keyboard.h and the tables of
-- kernel/arch/x86_64/dev/ps2_keyboard.c that lead to them.
use mjos.Base.{ℕ, List, [], ◌∷◌}

-- `enum keycode`
pub data KeyCode : Type 0 where
  key_reserved key_0 key_1 key_2 key_3 key_4 key_5 key_6 key_7 key_8 key_9 key_a key_b key_c :
      KeyCode
  key_d key_e key_f key_g key_h key_i key_j key_k key_l key_m key_n key_o key_p key_q key_r :
      KeyCode
  key_s key_t key_u key_v key_w key_x key_y key_z key_backtick key_minus key_equal key_tab : KeyCode
  key_leftbrace key_rightbrace key_semicolon key_quote key_comma key_dot key_slash key_backslash :
      KeyCode
  key_space key_backspace key_enter key_kp_0 key_kp_1 key_kp_2 key_kp_3 key_kp_4 key_kp_5 : KeyCode
  key_kp_6 key_kp_7 key_kp_8 key_kp_9 key_kp_slash key_kp_star key_kp_minus key_kp_plus : KeyCode
  key_kp_enter key_kp_dot ascii_key_count key_f1 key_f2 key_f3 key_f4 key_f5 key_f6 key_f7 : KeyCode
  key_f8 key_f9 key_f10 key_f11 key_f12 key_leftctrl key_rightctrl key_leftshift key_rightshift :
      KeyCode
  key_leftalt key_rightalt key_escape key_capslock key_numlock key_scrolllock key_insert : KeyCode
  key_delete key_home key_end key_pageup key_pagedown key_up key_down key_left key_right : KeyCode
  key_prtsc key_pause key_apps key_mm_prev key_mm_next key_mm_play key_mm_stop key_mm_mute : KeyCode
  key_mm_calc key_mm_volup key_mm_voldown key_mm_email key_mm_select key_mm_mycomputer : KeyCode
  key_www_home key_www_search key_www_favorites key_www_forward key_www_back key_www_stop : KeyCode
  key_www_refresh key_gui_left key_gui_right key_acpi_power key_acpi_sleep key_acpi_wake : KeyCode

-- the number of each key code
unfoldable pub key_value : KeyCode → ℕ
key_value key_reserved = 0
key_value key_0 = 1
key_value key_1 = 2
key_value key_2 = 3
key_value key_3 = 4
key_value key_4 = 5
key_value key_5 = 6
key_value key_6 = 7
key_value key_7 = 8
key_value key_8 = 9
key_value key_9 = 10
key_value key_a = 11
key_value key_b = 12
key_value key_c = 13
key_value key_d = 14
key_value key_e = 15
key_value key_f = 16
key_value key_g = 17
key_value key_h = 18
key_value key_i = 19
key_value key_j = 20
key_value key_k = 21
key_value key_l = 22
key_value key_m = 23
key_value key_n = 24
key_value key_o = 25
key_value key_p = 26
key_value key_q = 27
key_value key_r = 28
key_value key_s = 29
key_value key_t = 30
key_value key_u = 31
key_value key_v = 32
key_value key_w = 33
key_value key_x = 34
key_value key_y = 35
key_value key_z = 36
key_value key_backtick = 37
key_value key_minus = 38
key_value key_equal = 39
key_value key_tab = 40
key_value key_leftbrace = 41
key_value key_rightbrace = 42
key_value key_semicolon = 43
key_value key_quote = 44
key_value key_comma = 45
key_value key_dot = 46
key_value key_slash = 47
key_value key_backslash = 48
key_value key_space = 49
key_value key_backspace = 50
key_value key_enter = 51
key_value key_kp_0 = 52
key_value key_kp_1 = 53
key_value key_kp_2 = 54
key_value key_kp_3 = 55
key_value key_kp_4 = 56
key_value key_kp_5 = 57
key_value key_kp_6 = 58
key_value key_kp_7 = 59
key_value key_kp_8 = 60
key_value key_kp_9 = 61
key_value key_kp_slash = 62
key_value key_kp_star = 63
key_value key_kp_minus = 64
key_value key_kp_plus = 65
key_value key_kp_enter = 66
key_value key_kp_dot = 67
key_value ascii_key_count = 68
key_value key_f1 = 69
key_value key_f2 = 70
key_value key_f3 = 71
key_value key_f4 = 72
key_value key_f5 = 73
key_value key_f6 = 74
key_value key_f7 = 75
key_value key_f8 = 76
key_value key_f9 = 77
key_value key_f10 = 78
key_value key_f11 = 79
key_value key_f12 = 80
key_value key_leftctrl = 81
key_value key_rightctrl = 82
key_value key_leftshift = 83
key_value key_rightshift = 84
key_value key_leftalt = 85
key_value key_rightalt = 86
key_value key_escape = 87
key_value key_capslock = 88
key_value key_numlock = 89
key_value key_scrolllock = 90
key_value key_insert = 91
key_value key_delete = 92
key_value key_home = 93
key_value key_end = 94
key_value key_pageup = 95
key_value key_pagedown = 96
key_value key_up = 97
key_value key_down = 98
key_value key_left = 99
key_value key_right = 100
key_value key_prtsc = 101
key_value key_pause = 102
key_value key_apps = 103
key_value key_mm_prev = 104
key_value key_mm_next = 105
key_value key_mm_play = 106
key_value key_mm_stop = 107
key_value key_mm_mute = 108
key_value key_mm_calc = 109
key_value key_mm_volup = 110
key_value key_mm_voldown = 111
key_value key_mm_email = 112
key_value key_mm_select = 113
key_value key_mm_mycomputer = 114
key_value key_www_home = 115
key_value key_www_search = 116
key_value key_www_favorites = 117
key_value key_www_forward = 118
key_value key_www_back = 119
key_value key_www_stop = 120
key_value key_www_refresh = 121
key_value key_gui_left = 122
key_value key_gui_right = 123
key_value key_acpi_power = 124
key_value key_acpi_sleep = 125
key_value key_acpi_wake = 126

-- `normal_lookup`: scan code set 1 without a prefix
abbrev pub normal_lookup : List KeyCode
normal_lookup =
    key_reserved ∷ key_escape ∷ key_1 ∷ key_2 ∷ key_3 ∷ key_4 ∷ key_5 ∷ key_6 ∷ key_7 ∷ key_8
    ∷ key_9 ∷ key_0 ∷ key_minus ∷ key_equal ∷ key_backspace ∷ key_tab ∷ key_q ∷ key_w ∷ key_e
    ∷ key_r ∷ key_t ∷ key_y ∷ key_u ∷ key_i ∷ key_o ∷ key_p ∷ key_leftbrace ∷ key_rightbrace
    ∷ key_enter ∷ key_leftctrl ∷ key_a ∷ key_s ∷ key_d ∷ key_f ∷ key_g ∷ key_h ∷ key_j ∷ key_k
    ∷ key_l ∷ key_semicolon ∷ key_quote ∷ key_backtick ∷ key_leftshift ∷ key_backslash ∷ key_z
    ∷ key_x ∷ key_c ∷ key_v ∷ key_b ∷ key_n ∷ key_m ∷ key_comma ∷ key_dot ∷ key_slash
    ∷ key_rightshift ∷ key_kp_star ∷ key_leftalt ∷ key_space ∷ key_capslock ∷ key_f1 ∷ key_f2
    ∷ key_f3 ∷ key_f4 ∷ key_f5 ∷ key_f6 ∷ key_f7 ∷ key_f8 ∷ key_f9 ∷ key_f10 ∷ key_numlock
    ∷ key_scrolllock ∷ key_kp_7 ∷ key_kp_8 ∷ key_kp_9 ∷ key_kp_minus ∷ key_kp_4 ∷ key_kp_5
    ∷ key_kp_6 ∷ key_kp_plus ∷ key_kp_1 ∷ key_kp_2 ∷ key_kp_3 ∷ key_kp_0 ∷ key_kp_dot ∷ key_reserved
    ∷ key_reserved ∷ key_reserved ∷ key_f11 ∷ key_f12 ∷ key_reserved ∷ key_reserved ∷ key_reserved
    ∷ []

-- The `switch` for the codes behind the prefix e0.
abbrev pub extended_lookup : List (ℕ × KeyCode)
extended_lookup =
    (0x10, key_mm_prev)
    ∷ (0x19, key_mm_next)
    ∷ (0x1c, key_kp_enter)
    ∷ (0x1d, key_rightctrl)
    ∷ (0x20, key_mm_mute)
    ∷ (0x21, key_mm_calc)
    ∷ (0x22, key_mm_play)
    ∷ (0x24, key_mm_stop)
    ∷ (0x2e, key_mm_voldown)
    ∷ (0x30, key_mm_volup)
    ∷ (0x32, key_www_home)
    ∷ (0x35, key_kp_slash)
    ∷ (0x38, key_rightalt)
    ∷ (0x47, key_home)
    ∷ (0x48, key_up)
    ∷ (0x49, key_pageup)
    ∷ (0x4b, key_left)
    ∷ (0x4d, key_right)
    ∷ (0x4f, key_end)
    ∷ (0x50, key_down)
    ∷ (0x51, key_pagedown)
    ∷ (0x52, key_insert)
    ∷ (0x53, key_delete)
    ∷ (0x5b, key_gui_left)
    ∷ (0x5c, key_gui_right)
    ∷ (0x5d, key_apps)
    ∷ (0x5e, key_acpi_power)
    ∷ (0x5f, key_acpi_sleep)
    ∷ (0x63, key_acpi_wake)
    ∷ (0x65, key_www_search)
    ∷ (0x66, key_www_favorites)
    ∷ (0x67, key_www_refresh)
    ∷ (0x68, key_www_stop)
    ∷ (0x69, key_www_forward)
    ∷ (0x6a, key_www_back)
    ∷ (0x6b, key_mm_mycomputer)
    ∷ (0x6c, key_mm_email)
    ∷ (0x6d, key_mm_select)
    ∷ []
