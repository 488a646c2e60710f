-- ===== src/Report/Texts.antt =====
-- src/result_recorder.rs: the summary, the strings and the warning. `formatdoc!` leaves out the
-- indentation of its lines.
use mathlib.Core.List.{map}
use hprof_slurp.Prelude.{
  ℕ, ◌-◌, List, [], ◌∷◌, ◌++◌, Option, none, some, ◌==◌, ltb, if◌then◌else◌, length, take,
}
use hprof_slurp.Nom
use hprof_slurp.Text.{text}
use hprof_slurp.Text.Digits.{decimal, hex}
use hprof_slurp.Utils.Timestamp.{pretty_timestamp_utc}
use hprof_slurp.Parser.LazyMany.{bytes_eq}
use hprof_slurp.Recorder.State.{ResultRecorder, TagCounters, GcCounters}
use hprof_slurp.Recorder.AHashMap.{AHashMap}
use hprof_slurp.Sort.{sort, dedup}
use hprof_slurp.Sort.Orders.{ascending, lexicographic}

-- Lines of a label and a number, with a line break between them.
abbrev pub labelled : List (Nom.Bytes × ℕ) → Nom.Bytes
labelled [] = []
labelled ((label, n) ∷ []) = label ++ decimal n
labelled ((label, n) ∷ line ∷ lines) =
    label ++ (decimal n ++ (text "\n" ++ labelled (line ∷ lines)))

abbrev pub capture_time : ℕ → Nom.Bytes
capture_time timestamp =
    if timestamp == 0
    then []
    else text "\nDump captured at " ++ (pretty_timestamp_utc timestamp ++ text ".\n")

abbrev pub top_summary : ResultRecorder → Nom.Bytes
top_summary s =
    text "\nFile content summary:\n\n"
    ++ labelled (
        (text "UTF-8 Strings: ", length s.captured.utf8_strings_by_id)
        ∷ (text "Classes loaded: ", length s.captured.class_data_by_id)
        ∷ (text "Classes unloaded: ", s.tags.classes_unloaded)
        ∷ (text "Stack traces: ", s.tags.stack_traces)
        ∷ (text "Stack frames: ", s.tags.stack_frames)
        ∷ (text "Start threads: ", s.tags.start_threads)
        ∷ (text "Allocation sites: ", s.tags.allocation_sites)
        ∷ (text "End threads: ", s.tags.end_threads)
        ∷ (text "Control settings: ", s.tags.control_settings)
        ∷ (text "CPU samples: ", s.tags.cpu_samples)
        ∷ [])

abbrev pub heap_summary : TagCounters → GcCounters → Nom.Bytes
heap_summary tags gc =
    text "Heap summaries: "
    ++ (decimal tags.heap_summaries
        ++ (text "\n"
            ++ (decimal tags.heap_dumps
                ++ (text " heap dumps containing in total "
                    ++ (decimal gc.all_sub_records
                        ++ (text " segments:\n"
                            ++ labelled (
                                (text "..GC root unknown: ", gc.gc_root_unknown)
                                ∷ (text "..GC root thread objects: ", gc.gc_root_thread_object)
                                ∷ (text "..GC root JNI global: ", gc.gc_root_jni_global)
                                ∷ (text "..GC root JNI local: ", gc.gc_root_jni_local)
                                ∷ (text "..GC root Java frame: ", gc.gc_root_java_frame)
                                ∷ (text "..GC root native stack: ", gc.gc_root_native_stack)
                                ∷ (text "..GC root sticky class: ", gc.gc_root_sticky_class)
                                ∷ (text "..GC root thread block: ", gc.gc_root_thread_block)
                                ∷ (text "..GC root monitor used: ", gc.gc_root_monitor_used)
                                ∷ (text "..GC primitive array dump: ", gc.gc_primitive_array_dump)
                                ∷ (text "..GC object array dump: ", gc.gc_object_array_dump)
                                ∷ (text "..GC class dump: ", gc.gc_class_dump)
                                ∷ (text "..GC instance dump: ", gc.gc_instance_dump)
                                ∷ [])))))))

unfoldable pub render_summary : ResultRecorder → Nom.Bytes
render_summary s =
    capture_time s.timestamp ++ (top_summary s ++ (text "\n" ++ heap_summary s.tags s.gc))

-- `join`
abbrev pub join : Nom.Bytes → List Nom.Bytes → Nom.Bytes
join separator [] = []
join separator (s ∷ []) = s
join separator (s ∷ t ∷ ts) = s ++ (separator ++ join separator (t ∷ ts))

abbrev pub hex_id : ℕ → Nom.Bytes
hex_id id = text "0x" ++ hex id

-- At most ten ids, and dots if there are more.
abbrev pub displayed_ids : List ℕ → List Nom.Bytes
displayed_ids ids =
    let shown = map hex_id (take 10 ids) in
    if ltb (length shown) (length ids) then shown ++ text "..." ∷ [] else shown

abbrev pub warning : List ℕ → Nom.Bytes
warning ids =
    text "\nWarning: "
    ++ (decimal (length ids)
        ++ (text " class definition(s) referenced in the dump were never loaded (ids: "
            ++ (join (text ", ") (displayed_ids ids)
                ++ text
                    ").\nAffected objects are reported as '<unknown class>' and sized as bare object headers.\n")))

unfoldable pub render_missing_class_warning : List ℕ → Option Nom.Bytes
render_missing_class_warning [] = none
render_missing_class_warning (id ∷ ids) = some (warning (sort ascending (id ∷ ids)))

abbrev pub values : {K V : Type 0} → AHashMap K V → List V
values [] = []
values ((_, v) ∷ m) = v ∷ values m

abbrev pub strings_of : ResultRecorder → List Nom.Bytes
strings_of s = sort lexicographic (values s.captured.utf8_strings_by_id)

abbrev pub string_lines : List Nom.Bytes → Nom.Bytes
string_lines [] = []
string_lines (s ∷ ss) = s ++ (text "\n" ++ string_lines ss)

unfoldable pub render_captured_strings : ResultRecorder → Nom.Bytes
render_captured_strings s = text "\nList of Strings\n" ++ string_lines (strings_of s)

unfoldable pub render_duplicated_strings : ResultRecorder → Option Nom.Bytes
render_duplicated_strings s =
    let strings = strings_of s in
    let all_len = length strings in
    let dedup_len = length (dedup bytes_eq strings) in
    if all_len == dedup_len
    then none
    else some (
        text "\nFound "
        ++ (decimal (all_len - dedup_len)
            ++ (text " duplicated strings out of "
                ++ (decimal all_len ++ text " unique strings\n"))))
