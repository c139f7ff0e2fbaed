-- ===== src/Watch/Native/Worker/Tests.antt =====
-- A change of a folder, while the consumer is slow.
use scriptmetakit.Chars.{codes}
use scriptmetakit.Extensions.{behind_dot, extension_of, name_extension, extension, contains_path}
use scriptmetakit.Paths.{FilePath, normal, split_last, file_name}
use scriptmetakit.Prelude.{ℕ, Bool, true, false, List, [], ◌∷◌, some, ◌≡◌, refl, arith}
use scriptmetakit.Watch.Native.Worker.Delivered.{run-event-IsReceived}
use scriptmetakit.Watch.Native.Worker.Ended.{IsFreeAlong, IsCarried, run-event-IsCarried}
use scriptmetakit.Watch.Native.Worker.Kept.{IsReceived}
use scriptmetakit.Watch.Native.Worker.Waking.{IsBounded, run-IsBounded}
use scriptmetakit.Watch.Native.Worker.{
  Settings, started, is_empty_list, nothing_to_send, should_flush_after_event, elapsed_at_least,
  next_flush_timeout, send_batch, flush_pending_batch, append_dropped, timed, flush_if,
  receive_event, Input, event, timeout, dropped, disconnected, try_recv, step, run,
}
use scriptmetakit.Watch.Native.{
  changed, should_keep_event_path, is_windows_shortcut_path, placed, insert_path, sort_paths,
  keep_path, dedup_paths, pending_exceeded_max, with_path, append_path, append_event_to_pending,
}

abbrev folder : FilePath
folder = normal (codes "a") ∷ []

abbrev no_folder : FilePath → Bool
no_folder path = false

abbrev settings : Settings
settings = record {
  filter = record {
    overflow_paths = [];
    max_pending_paths = 0;
    watch_roots = [];
    supported_extensions = [];
    skip_hidden_paths = false;
    skip_package_paths = false;
    on_windows = false;
  };
  debounce_delay = 5;
  max_delivery_delay = some 9;
  has_notifier = true;
}

abbrev folder_changed : Input no_folder settings
folder_changed = event 3 (changed folder true true false)

folder_kept : should_keep_event_path no_folder folder true true false settings.filter ≡ true
unfolding should_keep_event_path contains_path extension name_extension extension_of behind_dot
    file_name split_last is_windows_shortcut_path
folder_kept = refl

-- A notice of dropped events, and the end of the callbacks before the change has been flushed.
abbrev ending : List (Input no_folder settings)
ending = dropped ∷ disconnected 6 ∷ []

free_along : IsFreeAlong no_folder settings (folder_changed ∷ ending) started
unfolding run step receive_event append_dropped append_event_to_pending should_keep_event_path
    contains_path extension name_extension extension_of behind_dot file_name split_last
    is_windows_shortcut_path append_path with_path pending_exceeded_max flush_if
    should_flush_after_event elapsed_at_least timed flush_pending_batch send_batch nothing_to_send
    is_empty_list sort_paths insert_path placed dedup_paths keep_path
free_along = (tt, (tt, (refl, tt)))

run-event-IsCarried_example :
    IsCarried folder (run no_folder settings (folder_changed ∷ ending) started)
run-event-IsCarried_example =
    run-event-IsCarried no_folder settings folder 3 true true false started ending refl folder_kept
      free_along

still_running : (run no_folder settings (folder_changed ∷ timeout 8 ∷ []) started).running ≡ true
unfolding run step receive_event append_dropped append_event_to_pending should_keep_event_path
    contains_path extension name_extension extension_of behind_dot file_name split_last
    is_windows_shortcut_path append_path with_path pending_exceeded_max flush_if
    should_flush_after_event elapsed_at_least timed flush_pending_batch send_batch nothing_to_send
    is_empty_list sort_paths insert_path placed dedup_paths keep_path
still_running = refl

still_alive :
    (run no_folder settings (folder_changed ∷ timeout 8 ∷ []) started).receiver_alive ≡ true
unfolding run step receive_event append_dropped append_event_to_pending should_keep_event_path
    contains_path extension name_extension extension_of behind_dot file_name split_last
    is_windows_shortcut_path append_path with_path pending_exceeded_max flush_if
    should_flush_after_event elapsed_at_least timed flush_pending_batch send_batch nothing_to_send
    is_empty_list sort_paths insert_path placed dedup_paths keep_path
still_alive = refl

run-event-IsReceived_example :
    IsReceived folder
      (run no_folder settings
        (try_recv ∷ timeout 20 ∷ try_recv ∷ [])
        (run no_folder settings (folder_changed ∷ timeout 8 ∷ []) started)).received
run-event-IsReceived_example =
    run-event-IsReceived no_folder settings folder 3 20 true true false started (timeout 8 ∷ [])
      refl folder_kept still_running still_alive

is_pending : nothing_to_send (run no_folder settings (folder_changed ∷ []) started).pending ≡ false
unfolding run step receive_event append_dropped append_event_to_pending should_keep_event_path
    contains_path extension name_extension extension_of behind_dot file_name split_last
    is_windows_shortcut_path append_path with_path pending_exceeded_max flush_if
    should_flush_after_event elapsed_at_least timed nothing_to_send is_empty_list sort_paths
    insert_path placed dedup_paths keep_path
is_pending = refl

run-IsBounded_example :
    (let w = run no_folder settings (folder_changed ∷ []) started in
      (wait : ℕ) × (next_flush_timeout w.first_event_at w.last_event_at 5 (some 9) 4 ≡ some wait)
      × IsBounded 5 (some 9) wait)
run-IsBounded_example =
    run-IsBounded no_folder settings 4 (folder_changed ∷ []) (omega arith, tt) is_pending
