-- ===== src/Resources/Mods.antt =====
-- mod_field_remove.go, mod_string_map_append.go, mod_object_ref_set.go, mod_field_copy.go. A
-- modification that changes an object in place is a function to the changed object; an error ends the
-- run of the program, so the object beside it is left out.
pub mod Update
pub mod Lookup
pub mod Remove
pub mod Append
pub mod Removed
pub mod Appended
pub mod RefSet
pub mod Copy
pub mod Copying
