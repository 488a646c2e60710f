-- ===== src/Format/Gc.antt =====
-- The sub-records of a heap dump as bytes, and the dispatch on their tags.
use hprof_slurp.Prelude.{ℕ, ◌*◌, ◌<◌, ◌≡◌, refl, [], ◌∷◌, ◌++◌, length, All, arith}
use hprof_slurp.Nom.{Nom, NomLaws, Bytes}
use hprof_slurp.Nom.Reads.{
  Reads, Reads-seq, map_ok-Reads, be_bytes, Fits, write_all, Reads-take, Reads-map,
}
use hprof_slurp.Nom.Reads.Combinators.{
  Reads-flat_map, Reads-count, Reads-tuple2, Reads-tuple3, Reads-tuple4, Reads-tuple10,
}
use hprof_slurp.Parser.GcRecord.{
  GcRecord, ClassDumpFields, root_unknown, root_thread_object, root_jni_global, root_jni_local,
  root_java_frame, root_native_stack, root_sticky_class, root_thread_block, root_monitor_used,
  root_interned_string, root_finalizing, root_debugger, root_reference_cleanup, root_vm_internal,
  root_jni_monitor, unreachable, heap_dump_info, primitive_array_no_data_dump, instance_dump,
  object_array_dump, primitive_array_dump, class_dump,
}
use hprof_slurp.Parser.Field.{parse_id}
use hprof_slurp.Parser.GcRoot.{
  parse_gc_root_unknown, parse_gc_root_thread_object, parse_gc_root_jni_global,
  parse_gc_root_jni_local, parse_gc_root_java_frame, parse_gc_root_native_stack,
  parse_gc_root_sticky_class, parse_gc_root_thread_block, parse_gc_root_monitor_used,
  parse_gc_root_interned_string, parse_gc_root_finalizing, parse_gc_root_debugger,
  parse_gc_root_reference_cleanup, parse_gc_root_vm_internal, parse_gc_root_jni_monitor,
  parse_gc_unreachable, parse_gc_heap_dump_info, parse_gc_primitive_array_nodata_dump,
}
use hprof_slurp.Parser.GcDump.{
  parse_gc_instance_dump, parse_gc_object_array_dump, parse_gc_primitive_array_dump,
  parse_gc_class_dump,
}
use hprof_slurp.Parser.Dispatch.{parse_gc_body, parse_gc_record}
use hprof_slurp.Format.Fields.{
  IsIdSize, code_of, write_const, IsConst, write_static, IsStatic, write_field, IsField, ArrayFits,
  Reads-u8, Reads-u16, Reads-u32, Reads-id, Reads-field_type, Reads-const_pool_item,
  Reads-static_field_item, Reads-instance_field_item, Reads-skip,
}

-- What the file holds and a record does not: the contents of an instance or an array, and five ids
-- of a class.
pub record Ignored : Type 0 where
  pub body : Bytes
  pub class_loader_object_id : ℕ
  pub signers_object_id : ℕ
  pub protection_domain_object_id : ℕ
  pub reserved_1 : ℕ
  pub reserved_2 : ℕ

abbrev pub tag_of : GcRecord → ℕ
tag_of (root_unknown _) = 0xff
tag_of (root_thread_object _ _ _) = 0x8
tag_of (root_jni_global _ _) = 0x1
tag_of (root_jni_local _ _ _) = 0x2
tag_of (root_java_frame _ _ _) = 0x3
tag_of (root_native_stack _ _) = 0x4
tag_of (root_sticky_class _) = 0x5
tag_of (root_thread_block _ _) = 0x6
tag_of (root_monitor_used _) = 0x7
tag_of (root_interned_string _) = 0x89
tag_of (root_finalizing _) = 0x8a
tag_of (root_debugger _) = 0x8b
tag_of (root_reference_cleanup _) = 0x8c
tag_of (root_vm_internal _) = 0x8d
tag_of (root_jni_monitor _ _ _) = 0x8e
tag_of (unreachable _) = 0x90
tag_of (heap_dump_info _ _) = 0xfe
tag_of (primitive_array_no_data_dump _ _ _ _) = 0xc3
tag_of (instance_dump _ _ _ _) = 0x21
tag_of (object_array_dump _ _ _ _) = 0x22
tag_of (primitive_array_dump _ _ _ _) = 0x23
tag_of (class_dump _) = 0x20

abbrev pub write_class : ℕ → ClassDumpFields → Ignored → Bytes
write_class n c x =
    (be_bytes n c.class_object_id
      ++ (be_bytes 4 c.stack_trace_serial_number
          ++ (be_bytes n c.super_class_object_id
              ++ (be_bytes n x.class_loader_object_id
                  ++ (be_bytes n x.signers_object_id
                      ++ (be_bytes n x.protection_domain_object_id
                          ++ (be_bytes n x.reserved_1
                              ++ (be_bytes n x.reserved_2
                                  ++ (be_bytes 4 c.instance_size
                                      ++ be_bytes 2 (length c.const_fields))))))))))
    ++ (write_all (write_const n) c.const_fields
        ++ (be_bytes 2 (length c.static_fields)
            ++ (write_all (write_static n) c.static_fields
                ++ (be_bytes 2 (length c.instance_fields)
                    ++ write_all (write_field n) c.instance_fields))))

abbrev pub write_gc_body : ℕ → GcRecord → Ignored → Bytes
write_gc_body n (root_unknown a) x = be_bytes n a
write_gc_body n (root_thread_object a b c) x = be_bytes n a ++ (be_bytes 4 b ++ be_bytes 4 c)
write_gc_body n (root_jni_global a b) x = be_bytes n a ++ be_bytes n b
write_gc_body n (root_jni_local a b c) x = be_bytes n a ++ (be_bytes 4 b ++ be_bytes 4 c)
write_gc_body n (root_java_frame a b c) x = be_bytes n a ++ (be_bytes 4 b ++ be_bytes 4 c)
write_gc_body n (root_native_stack a b) x = be_bytes n a ++ be_bytes 4 b
write_gc_body n (root_sticky_class a) x = be_bytes n a
write_gc_body n (root_thread_block a b) x = be_bytes n a ++ be_bytes 4 b
write_gc_body n (root_monitor_used a) x = be_bytes n a
write_gc_body n (root_interned_string a) x = be_bytes n a
write_gc_body n (root_finalizing a) x = be_bytes n a
write_gc_body n (root_debugger a) x = be_bytes n a
write_gc_body n (root_reference_cleanup a) x = be_bytes n a
write_gc_body n (root_vm_internal a) x = be_bytes n a
write_gc_body n (root_jni_monitor a b c) x = be_bytes n a ++ (be_bytes 4 b ++ be_bytes 4 c)
write_gc_body n (unreachable a) x = be_bytes n a
write_gc_body n (heap_dump_info a b) x = be_bytes 4 a ++ be_bytes n b
write_gc_body n (primitive_array_no_data_dump a b c d) x =
    be_bytes n a ++ (be_bytes 4 b ++ (be_bytes 4 c ++ (code_of d ∷ [])))
write_gc_body n (instance_dump a b c d) x =
    (be_bytes n a ++ (be_bytes 4 b ++ (be_bytes n c ++ be_bytes 4 d))) ++ x.body
write_gc_body n (object_array_dump a b c d) x =
    (be_bytes n a ++ (be_bytes 4 b ++ (be_bytes 4 c ++ be_bytes n d))) ++ x.body
write_gc_body n (primitive_array_dump a b c d) x =
    (be_bytes n a ++ (be_bytes 4 b ++ (be_bytes 4 c ++ (code_of d ∷ [])))) ++ x.body
write_gc_body n (class_dump c) x = write_class n c x

abbrev pub write_gc : ℕ → GcRecord → Ignored → Bytes
write_gc n r x = tag_of r ∷ write_gc_body n r x

-- The numbers fit their fields, and what is skipped has the size that the record announces.
pub record ClassFits (n : ℕ) (c : ClassDumpFields) (x : Ignored) : Type 0 where
  pub class_id : Fits n c.class_object_id
  pub trace : Fits 4 c.stack_trace_serial_number
  pub super : Fits n c.super_class_object_id
  pub loader : Fits n x.class_loader_object_id
  pub signers : Fits n x.signers_object_id
  pub domain : Fits n x.protection_domain_object_id
  pub reserved_1 : Fits n x.reserved_1
  pub reserved_2 : Fits n x.reserved_2
  pub size : Fits 4 c.instance_size
  pub const_count : Fits 2 (length c.const_fields)
  pub consts : All (IsConst n) c.const_fields
  pub static_count : Fits 2 (length c.static_fields)
  pub statics : All (IsStatic n) c.static_fields
  pub field_count : Fits 2 (length c.instance_fields)
  pub fields : All (IsField n) c.instance_fields

abbrev pub GcFits : ℕ → GcRecord → Ignored → Type 0
GcFits n (root_unknown a) x = Fits n a
GcFits n (root_thread_object a b c) x = Fits n a × Fits 4 b × Fits 4 c
GcFits n (root_jni_global a b) x = Fits n a × Fits n b
GcFits n (root_jni_local a b c) x = Fits n a × Fits 4 b × Fits 4 c
GcFits n (root_java_frame a b c) x = Fits n a × Fits 4 b × Fits 4 c
GcFits n (root_native_stack a b) x = Fits n a × Fits 4 b
GcFits n (root_sticky_class a) x = Fits n a
GcFits n (root_thread_block a b) x = Fits n a × Fits 4 b
GcFits n (root_monitor_used a) x = Fits n a
GcFits n (root_interned_string a) x = Fits n a
GcFits n (root_finalizing a) x = Fits n a
GcFits n (root_debugger a) x = Fits n a
GcFits n (root_reference_cleanup a) x = Fits n a
GcFits n (root_vm_internal a) x = Fits n a
GcFits n (root_jni_monitor a b c) x = Fits n a × Fits 4 b × Fits 4 c
GcFits n (unreachable a) x = Fits n a
GcFits n (heap_dump_info a b) x = Fits 4 a × Fits n b
GcFits n (primitive_array_no_data_dump a b c d) x = Fits n a × Fits 4 b × Fits 4 c
GcFits n (instance_dump a b c d) x = Fits n a × Fits 4 b × Fits n c × Fits 4 d × (length x.body ≡ d)
GcFits n (object_array_dump a b c d) x =
    Fits n a × Fits 4 b × Fits 4 c × Fits n d × (length x.body ≡ c * n)
GcFits n (primitive_array_dump a b c d) x =
    Fits n a × Fits 4 b × Fits 4 c × ArrayFits d c (length x.body)
GcFits n (class_dump c) x = ClassFits n c x

module _ {nom : Nom} (laws : NomLaws nom) (n : ℕ) (s : IsIdSize n) where
  read_id : (v : ℕ) → Fits n v → Reads (parse_id nom n) (be_bytes n v) v
  read_id v h = Reads-id laws n v s h

  Reads-class_dump :
      (c : ClassDumpFields) (x : Ignored)
      → ClassFits n c x
      → Reads (parse_gc_class_dump nom n) (write_class n c x) (class_dump c)
  unfolding parse_gc_class_dump
  Reads-class_dump c x h =
      Reads-seq _
        (Reads-tuple10 laws (read_id _ h.class_id) (Reads-u32 laws _ h.trace) (read_id _ h.super)
          (read_id _ h.loader) (read_id _ h.signers) (read_id _ h.domain) (read_id _ h.reserved_1)
          (read_id _ h.reserved_2) (Reads-u32 laws _ h.size) (Reads-u16 laws _ h.const_count))
        (Reads-seq _
          (Reads-count laws (write_const n) (λ v. Reads-const_pool_item laws n v s) c.const_fields
            refl h.consts)
          (Reads-seq _ (Reads-u16 laws _ h.static_count) (
            Reads-seq _
              (Reads-count laws (write_static n) (λ v. Reads-static_field_item laws n v s)
                c.static_fields refl h.statics)
              (Reads-seq _ (Reads-u16 laws _ h.field_count) (
                map_ok-Reads _ (
                  Reads-count laws (write_field n) (λ v. Reads-instance_field_item laws n v s)
                    c.instance_fields refl h.fields))))))

  -- Behind its tag, each sub-record is read by the parser that the tag selects.
  Reads-gc_body :
      (r : GcRecord) (x : Ignored)
      → GcFits n r x
      → Reads (parse_gc_body nom n (tag_of r)) (write_gc_body n r x) r
  unfolding parse_gc_body parse_gc_root_unknown parse_gc_root_thread_object parse_gc_root_jni_global
      parse_gc_root_jni_local parse_gc_root_java_frame parse_gc_root_native_stack
      parse_gc_root_sticky_class parse_gc_root_thread_block parse_gc_root_monitor_used
      parse_gc_root_interned_string parse_gc_root_finalizing parse_gc_root_debugger
      parse_gc_root_reference_cleanup parse_gc_root_vm_internal parse_gc_root_jni_monitor
      parse_gc_unreachable parse_gc_heap_dump_info parse_gc_primitive_array_nodata_dump
      parse_gc_instance_dump parse_gc_object_array_dump parse_gc_primitive_array_dump
  Reads-gc_body (root_unknown a) x h = Reads-map laws (read_id a h)
  Reads-gc_body (root_thread_object a b c) x h =
      Reads-map laws
        (Reads-tuple3 laws (read_id a h.0) (Reads-u32 laws b h.1) (Reads-u32 laws c h.2))
  Reads-gc_body (root_jni_global a b) x h =
      Reads-map laws (Reads-tuple2 laws (read_id a h.0) (read_id b h.1))
  Reads-gc_body (root_jni_local a b c) x h =
      Reads-map laws
        (Reads-tuple3 laws (read_id a h.0) (Reads-u32 laws b h.1) (Reads-u32 laws c h.2))
  Reads-gc_body (root_java_frame a b c) x h =
      Reads-map laws
        (Reads-tuple3 laws (read_id a h.0) (Reads-u32 laws b h.1) (Reads-u32 laws c h.2))
  Reads-gc_body (root_native_stack a b) x h =
      Reads-map laws (Reads-tuple2 laws (read_id a h.0) (Reads-u32 laws b h.1))
  Reads-gc_body (root_sticky_class a) x h = Reads-map laws (read_id a h)
  Reads-gc_body (root_thread_block a b) x h =
      Reads-map laws (Reads-tuple2 laws (read_id a h.0) (Reads-u32 laws b h.1))
  Reads-gc_body (root_monitor_used a) x h = Reads-map laws (read_id a h)
  Reads-gc_body (root_interned_string a) x h = Reads-map laws (read_id a h)
  Reads-gc_body (root_finalizing a) x h = Reads-map laws (read_id a h)
  Reads-gc_body (root_debugger a) x h = Reads-map laws (read_id a h)
  Reads-gc_body (root_reference_cleanup a) x h = Reads-map laws (read_id a h)
  Reads-gc_body (root_vm_internal a) x h = Reads-map laws (read_id a h)
  Reads-gc_body (root_jni_monitor a b c) x h =
      Reads-map laws
        (Reads-tuple3 laws (read_id a h.0) (Reads-u32 laws b h.1) (Reads-u32 laws c h.2))
  Reads-gc_body (unreachable a) x h = Reads-map laws (read_id a h)
  Reads-gc_body (heap_dump_info a b) x h =
      Reads-map laws (Reads-tuple2 laws (Reads-u32 laws a h.0) (read_id b h.1))
  Reads-gc_body (primitive_array_no_data_dump a b c d) x h = Reads-map laws (
      Reads-tuple4 laws (read_id a h.0) (Reads-u32 laws b h.1) (Reads-u32 laws c h.2)
        (Reads-field_type laws d))
  Reads-gc_body (instance_dump a b c d) x h =
      Reads-flat_map laws
        (Reads-tuple4 laws (read_id a h.0) (Reads-u32 laws b h.1) (read_id c h.2)
          (Reads-u32 laws d h.3))
        (Reads-map laws (Reads-take laws x.body h.4))
  Reads-gc_body (object_array_dump a b c d) x h =
      Reads-flat_map laws
        (Reads-tuple4 laws (read_id a h.0) (Reads-u32 laws b h.1) (Reads-u32 laws c h.2)
          (read_id d h.3))
        (Reads-map laws (Reads-take laws x.body h.4))
  Reads-gc_body (primitive_array_dump a b c d) x h =
      Reads-flat_map laws
        (Reads-tuple4 laws (read_id a h.0) (Reads-u32 laws b h.1) (Reads-u32 laws c h.2)
          (Reads-field_type laws d))
        (Reads-map laws (Reads-skip laws d c x.body h.3))
  Reads-gc_body (class_dump c) x h = Reads-class_dump c x h

  tag_of-lt : (r : GcRecord) → tag_of r < 256
  tag_of-lt (root_unknown _) = omega arith
  tag_of-lt (root_thread_object _ _ _) = omega arith
  tag_of-lt (root_jni_global _ _) = omega arith
  tag_of-lt (root_jni_local _ _ _) = omega arith
  tag_of-lt (root_java_frame _ _ _) = omega arith
  tag_of-lt (root_native_stack _ _) = omega arith
  tag_of-lt (root_sticky_class _) = omega arith
  tag_of-lt (root_thread_block _ _) = omega arith
  tag_of-lt (root_monitor_used _) = omega arith
  tag_of-lt (root_interned_string _) = omega arith
  tag_of-lt (root_finalizing _) = omega arith
  tag_of-lt (root_debugger _) = omega arith
  tag_of-lt (root_reference_cleanup _) = omega arith
  tag_of-lt (root_vm_internal _) = omega arith
  tag_of-lt (root_jni_monitor _ _ _) = omega arith
  tag_of-lt (unreachable _) = omega arith
  tag_of-lt (heap_dump_info _ _) = omega arith
  tag_of-lt (primitive_array_no_data_dump _ _ _ _) = omega arith
  tag_of-lt (instance_dump _ _ _ _) = omega arith
  tag_of-lt (object_array_dump _ _ _ _) = omega arith
  tag_of-lt (primitive_array_dump _ _ _ _) = omega arith
  tag_of-lt (class_dump _) = omega arith

  -- For an id size of 4 or 8, `parse_gc_record` reads every sub-record, of each of the 22 kinds,
  -- off the bytes that the format lays down for it, and leaves what follows them. The skipped
  -- contents may be any bytes of the announced size.
  pub Reads-gc_record :
      (r : GcRecord) (x : Ignored) → GcFits n r x → Reads (parse_gc_record nom n) (write_gc n r x) r
  unfolding parse_gc_record
  Reads-gc_record r x h =
      Reads-seq (parse_gc_body nom n) (Reads-u8 laws (tag_of r) (tag_of-lt r)) (Reads-gc_body r x h)
