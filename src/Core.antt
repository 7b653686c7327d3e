-- ===== src/Core.antt =====
-- include/core.hpp: the error codes, of which every function of the server returns one.
use emeralddb_src.Base.{ℕ, ◌%◌, ◌<◌, arith, Bool, true, false}

-- Each code is named as its `EDB_` macro. The file operations also return a positive `errno`.
pub data Rc : Type 0 where
  ok io invalidarg perm oom sys pmd_help_only pmd_force_system_edu timeout quiesced : Rc
  edu_inval_status network network_close app_forced ixm_id_exist header_invalid : Rc
  ixm_id_not_exist no_id : Rc
  errno : ℕ → Rc

-- `if (rc)`
abbrev pub is_error : Rc → Bool
is_error ok = false
is_error _ = true

-- The int that stands for a code, as the 32-bit word that holds it
unfoldable pub rc_word : Rc → ℕ
rc_word ok = 0
rc_word io = 4294967295
rc_word invalidarg = 4294967294
rc_word perm = 4294967293
rc_word oom = 4294967292
rc_word sys = 4294967291
rc_word pmd_help_only = 4294967290
rc_word pmd_force_system_edu = 4294967289
rc_word timeout = 4294967288
rc_word quiesced = 4294967287
rc_word edu_inval_status = 4294967286
rc_word network = 4294967285
rc_word network_close = 4294967284
rc_word app_forced = 4294967283
rc_word ixm_id_exist = 4294967282
rc_word header_invalid = 4294967281
rc_word ixm_id_not_exist = 4294967280
rc_word no_id = 4294967279
rc_word (errno e) = e % 4294967296

pub rc_word_bound : (rc : Rc) → rc_word rc < 4294967296
unfolding rc_word
rc_word_bound ok = omega arith
rc_word_bound io = omega arith
rc_word_bound invalidarg = omega arith
rc_word_bound perm = omega arith
rc_word_bound oom = omega arith
rc_word_bound sys = omega arith
rc_word_bound pmd_help_only = omega arith
rc_word_bound pmd_force_system_edu = omega arith
rc_word_bound timeout = omega arith
rc_word_bound quiesced = omega arith
rc_word_bound edu_inval_status = omega arith
rc_word_bound network = omega arith
rc_word_bound network_close = omega arith
rc_word_bound app_forced = omega arith
rc_word_bound ixm_id_exist = omega arith
rc_word_bound header_invalid = omega arith
rc_word_bound ixm_id_not_exist = omega arith
rc_word_bound no_id = omega arith
rc_word_bound (errno e) = omega arith
