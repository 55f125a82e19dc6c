-- ===== src/Lib.antt =====
-- cbor-gen: a library that reads and writes CBOR, and a generator of methods for Go structs.
--
-- The program's parts and the files that model them (paths from the repository's root):
--   Go            errors, results of a read, and the reader. A reader is the list of the bytes that
--                 are left (the in-memory readers of package bytes), a byte a number; a read gives
--                 `ok` with a value, a count and the rest, or `err` with an error and both.
--                 Go/Words has the big-endian words of encoding/binary; Go/Writer the interface
--                 io.Writer, any state with a `Write` that takes a part of the bytes and may return
--                 an error. Go/Decodes, Go/Counts, Go/Calm and Writer/Emits say what a read and a
--                 write come to.
--   Header        utils.go: CborReadHeader (`read_header`), CborReadHeaderBuf (`read_header_buf`,
--                 in Header/Scratch), CborEncodeMajorType (`encode_major_type`), and in
--                 Header/Write WriteMajorTypeHeader and WriteMajorTypeHeaderBuf. All other parts
--                 stand on it.
--   Strings       utils.go: ReadByteArray, ReadTaggedByteArray, ReadString, ReadStringBuf.
--   Scalars       utils.go: CborBool and CborInt, and in Scalars/Time CborTime. A signed integer is
--                 its 64-bit pattern.
--   Cid           utils.go and cbor_cid.go: ReadCid, WriteCid, WriteCidBuf, CborCid. The library
--                 go-cid is the parameter `lib`, a record of its operations with their laws.
--   Item          what CBOR items are: an inductive type with its encoding. Item/Forest has the
--                 lists of items that a pass over headers works off, Item/Close how one is closed.
--   Validate      validate.go: ValidateCBOR (`validate_cbor`); Validate/Sound, Validate/Complete
--                 and Validate/Ends are about what it accepts and about its loop.
--   Deferred      utils.go: Deferred.UnmarshalCBOR and MarshalCBOR; Deferred/Copy and
--                 Deferred/Complete are about what is kept, Deferred/Validated is on it and
--                 Validate.
--   Scan          utils.go: discard and ScanForLinks, for the types of reader that discard tells
--                 apart; the calls of the callback are a list. Scan/Links has the links of an item,
--                 Scan/Steps, Rounds and Complete the walk, Scan/Endless a seek backwards,
--                 Scan/Ends the loop with the other types of reader.
--   Keys          utils.go: mapKeySort_RFC7049Less and MapKeySort_RFC7049, the order of map keys; a
--                 Go map from strings is the list of its entries in that order. Keys/Order, Sort
--                 and Entries are on the laws of the order, the sorting and the entries,
--                 Keys/Shortlex on the order of RFC 7049.
--   Tuple         gen.go: what the methods do that emitCborMarshalStructTuple (Tuple/Marshal) and
--                 emitCborUnmarshalStructTuple (Tuple/Unmarshal) emit, for a list of field kinds; a
--                 field of another type with methods has a `Codec`, its methods with what they
--                 promise (Tuple/Codecs has those of tuples, times and Deferred, Tuple/CidCodec
--                 that of CIDs, with go-cid as a parameter). Tuple/Encode, Sends, Fields, Elements
--                 and RoundTrip are on what is sent and read back, Tuple/Counts on the count,
--                 Tuple/Widths on the generator's variable `len`. A uint64 field has a kind of its
--                 own, the others of unsigned integers are narrower.
--   MapForm       gen.go: emitCborMarshalStructMap (MapForm/Marshal) and
--                 emitCborUnmarshalStructMap, for fields of the same kinds with their names; names
--                 that the struct does not have go through Scan. MapForm/Document has the maps that
--                 are read, MapForm/RoundTrip those that were sent, MapForm/Unskipped those with an
--                 item that cannot be skipped.
--   Packages      package.go: `init`, resolvePkgName, and in Packages/Imports ImportsForType and
--                 dedupImports, on the two maps of names and paths (Packages/Invariant). With them
--                 gen.go's typeName, GenTypeInfo.Imports and the imports of
--                 PrintHeaderAndUtilityMethods (Packages/Printed). Packages/Present and Unique are
--                 on lists of imports, Spelled and Covered on the names of types against them. The
--                 imports that stand in the text of the header (fmt, io, math, sort) are not in the
--                 two maps: `text_imports`.
--   Peeker        peeker.go: the state machine over the interface io.Reader; Peeker/View is on what
--                 its caller holds, Peeker/Runs on sequences of calls.
--   Reflect       gen.go: ParseTypeInfo and parseTypeInfoRecur, over struct types as trees.
--                 Reflect/Leaves has the fields with their depths, Elements and Least the list and
--                 the maps that the code keeps, Promoted what comes out, Reach the fields behind
--                 embedded structs whatever the names of these; Reflect/Ordered is the order of the
--                 fields in writefile.go's WriteTupleEncodersToFile, Picked and Permuted are on
--                 what it is.
--   Embed         gen.go: the method InitNilEmbeddedStruct that emitInitNilEmbeddedStructMethod
--                 emits (`init_nil`), on the values of a struct type of Reflect; a type that is no
--                 struct is a parameter with its zero value. Where a struct embeds more than one by
--                 pointer the text does not parse and there is no method (`has_method`). Embed/Nil
--                 is on the pointers that are nil.
--   Generate      gen.go: the errors of GenTupleEncodersForType and GenMapEncodersForType, by the
--                 functions that they call for each field, over types by their kinds.
--                 Generate/Accepts compares the two halves; Generate/Kinds has the kind of Tuple
--                 for each type whose emitted code is modelled, Generate/Composed the generator
--                 with that code. Generate/Scratch has NeedsScratch and the uses of the variable
--                 `scratch`.
--   Output        writefile.go: WriteTupleEncodersToFile and WriteMapEncodersToFile, which call
--                 Reflect, Packages (for the header) and Generate. The printed text, go/format and
--                 package os are the parameters `go` and `os`; Output/Disk is on what each outcome
--                 leaves on the disk.
--   Prelude       lists, bits and tests on the native numbers.
--   Tests         the theorems applied to concrete inputs.
--
-- Bounds and fuel: numbers are natural, and the wrap-around of uint64 is written out where the code
-- has it. The loops of ValidateCBOR and Deferred run on one more round than the input has bytes;
-- each round takes a byte, so the fuel is enough. ScanForLinks may seek backwards, so that its fuel
-- is an argument, the number of tests of the loop, and in the methods of MapForm the argument
-- `spare`, the tests it has beyond one for each byte and one. The counter of the items that remain
-- is a uint64: every header adds at most 16384 to it, so below 2 ^ 49 bytes it does not wrap, and
-- the theorems on the loops ask for shorter inputs. The search for a free package name has one try
-- more than there are names taken. `make` of a slice is a panic above `max_alloc`, 2 ^ 48.
--
-- Not modelled: fields that are big integers or slices of CIDs, for which the emitted code does not
-- compile; slices of int8, for the same reason; the mutex of package.go (calls are one behind the
-- other); the text that the templates print, in which typeName may still allocate names for fields
-- that Imports skips; testgen/main.go, which calls the generator with fixed arguments; the text of
-- error messages beyond their values.
pub mod Prelude
pub mod Go
pub mod Header
pub mod Strings
pub mod Scalars
pub mod Cid
pub mod Item
pub mod Validate
pub mod Deferred
pub mod Scan
pub mod Keys
pub mod Tuple
pub mod MapForm
pub mod Packages
pub mod Peeker
pub mod Reflect
pub mod Embed
pub mod Generate
pub mod Output
mod Tests
