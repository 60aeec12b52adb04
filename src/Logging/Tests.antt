-- ===== src/Logging/Tests.antt =====
-- The logger of the small configuration, and a Sync that standard output does not support.
use toyotaview.Common.{
  ℕ, suc, pos, true, none, some, [], ◌∷◌, str, new_error, ok, ◌≡◌, refl, contains_str, has_prefix,
  if◌then◌else◌,
}
use toyotaview.Common.Text.{to_lower, is_ascii, lower_byte}
use toyotaview.Config.Demo.{demo, demo_library, demo_parsers, demo_flags, load-demo}
use toyotaview.Logging.{
  Library, ManagedLogger, file, stdout, new_logger, file_writer, is_ignorable_sync_error,
}
use toyotaview.Logging.Laws.{Closes, close-new_logger}

abbrev zap : Library ℕ
zap = record {
  set_level = λ value. ok (pos 0);
  sync = λ sinks w. (some (new_error "sync"), suc w);
  close = λ sink w. (none, suc w);
  error_text = λ e. str "sync /dev/stdout: Invalid argument";
  lower_unicode = λ s. s;
}

sync_ignored : is_ignorable_sync_error zap (new_error "sync") ≡ true
unfolding is_ignorable_sync_error to_lower is_ascii lower_byte contains_str has_prefix
sync_ignored = refl

close-new_logger_example :
    (m : ManagedLogger) × (new_logger zap demo.logging ≡ ok m)
    × (m.sinks
        ≡ file (file_writer zap demo.logging)
          ∷ (if demo.logging.add_stdout then stdout ∷ [] else []))
    × ((w : ℕ) → Closes zap (file (file_writer zap demo.logging)) m w)
close-new_logger_example =
    close-new_logger zap demo_parsers demo_library demo_flags [] [] demo
      (λ value known. (pos 0, refl)) load-demo
