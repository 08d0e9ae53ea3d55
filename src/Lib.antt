-- ===== src/Lib.antt =====
-- A verification of the storage layer of jet3, a reader and writer of Jet 3 database files.
--
-- The modules under Format model crates/jet3/src/format, the layer that every other part of the
-- crate reads and writes pages through:
--   Format/Error, Format/Offset    error.rs, offset.rs: error values, checked 64-bit arithmetic
--   Format/Limits                  limits.rs: ReadLimits, ReadBudget and its one charge
--   Format/Resource                resource.rs: ResourceLimits, ResourceBudget, its six charges
--   Format/Cursor, Format/Writer   binary.rs, binary_writer.rs: BinaryCursor, BinaryWriter
--   Format/Words                   the integers that both sides share
--   Format/Geometry                page.rs: PageGeometry, page ranges and byte offsets
--   Format/PageKind                page_kind.rs: page tags and classify_page
--   Format/CommitState             commit_state.rs: the commit slots of the header page
--   Format/Text                    text.rs: code pages and the characters of their bytes
--   Format/DataPageDirectory       data_page_directory.rs: validation and entries of a directory
--   Format/PageImage               page_image.rs: PageImage, DataPageBuilder, append_row
-- The modules under Row model the part of crates/jet3/src/row that stands on that layer:
--   Row/Directory                  directory.rs: RowDirectory, its checks and its search
--   Row/Slot                       directory.rs, reader.rs: RowSlot and overflow pointers
--   Row/DataPage                   data_page.rs: DataPageEditor, live rows and free bytes
--   Row/Insert                     insert_page.rs: DataPageEditor::append
--   Row/Edit                       delete_page.rs, update_page.rs: DataPageEditor::remove, replace
--   Row/Layout                     reader_layout.rs: RowLayout, its checks and what it finds
--   Row/Layout/Trailer             writer.rs: the last bytes that write_row writes
-- The modules under Alloc model the allocation maps of crates/jet3/src/alloc:
--   Alloc/Bitmap                   map.rs: SetBitCursor, the search for set bits
--   Alloc/Map                      map.rs: the records, their pages and their references
--   Alloc/Encoder                  usage_map_writer.rs: the encoders of records and bitmap pages
--   Alloc/UsageMap                 usage_map.rs: locate_usage_map
-- The modules under Index model the keys of crates/jet3/src/index:
--   Index/Key                      key/scalar.rs: directions, KeyPrefix, encode_long
--   Index/Key/Binary               key/binary.rs: encode, prefix, shorten
--   Index/Key/Scalar               key/scalar.rs: ScalarKeyType, its components and their prefixes
--   Index/Key/Text                 key/text.rs, text_weights.rs: texts in the General order
--   Index/Key/LocaleText           key/locale_text.rs, locale_text_weights.rs: texts in all orders
--   Index/Entry                    entry.rs: ScalarIndexEntry, valid_key_shape
--   Index/Order                    the order of keys as lists of bytes
-- The values of rows (writer.rs, RowValue) are in Row/Value.
-- Common holds what they share: Boolean tests, lists and bytes over native numbers, bit operations
-- as arithmetic, results and outcomes.
--
-- A function that takes `&mut self` or a `&mut` budget is an operation of type `Op E S A`: it takes
-- the state and returns `done` with a value or `fail` with an error, and in both cases the state it
-- leaves, so that what an error path leaves behind is part of the model. A function that only
-- returns a `Result` is a `Result`. A `u8`, `u16`, `u32`, `u64` or `usize` is a native number, and
-- the checks that keep it in its range are those of the source; where a theorem needs the range of
-- a value that the type guarantees, it is a hypothesis (HasU64Limits, IsCursor, IsWriter,
-- IsGeometry). `usize` is 64 bits wide. A signed integer is an element of ℤ, and its bytes are those
-- of its two's complement word.
--
-- The abstract view of a data page is the table of its rows: Row/Edit/Rows gives the bytes of the row
-- of each slot, and append, remove and replace are changes of one entry of that table. The abstract
-- view of an inline allocation map is its set of pages, in ascending order.
--
-- Every loop of the modelled code runs over a count known at its start and is a structural
-- recursion. The loops over `next_entry` run on fuel: `collect`, `check_pointers` and `next_primary`
-- take one step more than the number of rows that are left, and their theorems show that this is
-- enough. The loop of the prefix check of binary components consumes eight bytes of at most
-- `maximum` in each round, and runs on `maximum` rounds. The loop of `next_set_bit` has one round
-- for each bit of the bitmap and one for its end, and its theorem covers every place from which the
-- cursor may start. The drains of maps, which call it until nothing is left, take as many rounds.
--
-- A floating-point value is the number of its bits: `to_bits`, `is_finite` and `is_sign_negative` are
-- read off them. The key encoders return the bytes of their output up to the length that the source
-- returns, and the room of the buffers is not modelled. The encoder and the check of scalar keys
-- call the two operations of key/locale_text.rs as those of a record TextKeys, about which nothing is
-- assumed and which locale_texts implements; what is proved of single components leaves texts out.
--
-- Not modelled: the allocator behind grow and reserve (the answer of `try_reserve_exact` is a
-- parameter of the inline encoder and of the records of index entries), the walk and the mutation of
-- maps in a file, reads and writes of floating-point values, sources that read through the operating
-- system, the fields of a row in front of its trailer, the decoding of values, and the parts of the
-- crate above rows and keys.
pub mod Common
pub mod Format
pub mod Row
pub mod Alloc
pub mod Index
