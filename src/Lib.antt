-- ===== src/Lib.antt =====
-- tengdb reads columns of ORC files: the decoder of the run length encoding RLEv2, the statistics
-- that it keeps of the runs it meets, the buffers that it decodes into, the scanner that reads a
-- table stripe by stripe, and small tables around them.
--
-- The parts and the files that model them (paths from the repository's root):
--
--   include/util.h             Util: TypeKind, bitofType, byteofType; Util/BitWidth:
--                              getClosestFixedBits, decodeBitWidth; Util/Codec: Encode, Decode;
--                              Util/Arrays: EncodeArray, DecodeArray, EncodeString, DecodeString.
--   include/ORCColumnInfo.h    ColumnInfo/EncodingInfo: struct EncodingInfo and updateEncodingInfo
--                              of src/orc/RLE2.cpp; its children: encodeTo, decodeFrom, merge,
--                              finalize and the getters. ColumnInfo/SortData: sortData;
--                              ColumnInfo/Column, ColumnInfo/RleInfo and ColumnInfo/Info: struct
--                              Column, RLEInfo and ColumnInfo. Scanner/Batch: struct Batch.
--   src/orc/RLE2.cpp           Rle: readLongBE, readVulong, unZigZag and readVslong (Rle/Word and
--                              Rle/Bytes), readLongs (Rle/Longs), and nextDirect, nextShortRepeats,
--                              nextPatched, nextDelta and next, each in the file of its name, as a
--                              build without __AVX2__ has them. Rle/Vector and Rle/Vectorized: the
--                              registers, and the same functions of a build with it.
--   include/HashTable.h        HashTable: the table of 128 slots with get and put.
--   include/Table.h            Table/Rep: class Rep, the files of a table, and replace;
--                              Table/Columns and Table/Access: class Table; Table/Schemas: getTable.
--   src/orcreader/ORCReader.cpp
--                              Reader: readdata, which reads a stream of a stripe into a buffer;
--                              Reader/Open: createReader.
--   src/exec/ORCScanner.cpp    Scanner/Columns: how nextBatch reads the columns of a stripe;
--                              Scanner/Batches: the constructor, prepare and nextBatch;
--                              Scanner/Statistics: the destructor.
--   src/frontend/sql/Expr.h, Expr.cpp
--                              Sql/Expr: expressions and the columns that they name.
--   src/frontend/sql/SelectStatement.h, src/frontend/SQLCodegen.cpp
--                              Sql/Select: how a select statement becomes a scan.
--   src/frontend/sqlhelper.cpp Sql/Print: the printers of expressions, tables and statements.
--   src/common/MemoryPool.cpp  MemoryPool: DataBuffer with its constructor, reserve and resize.
--
-- How they interact: next reads the first byte of a run and hands `result`, the position and the
-- statistics of the encoding to the decoder of the run, which counts the run by
-- updateEncodingInfo. The scanner asks its table for the next file, opens it with createReader,
-- and for each stripe reads the stream of each column with readdata and hands it to next, which
-- decodes into the column's buffer of the batch. It keeps statistics for each column; the last
-- scanner of a table merges those of all and writes them with encodeTo for the generator of
-- specialised decoders, which reads them with decodeFrom.
--
-- How the state corresponds: `data`, `index` and `datasize` are the list of the bytes that are
-- not yet taken (Common/Run), `result` is a function from positions to values (Common/Memory),
-- and a number of type I is its bit pattern, `w` being the number of bits of I and UI. Undefined
-- behaviour and exit(0) are faults (Common/Run), so a theorem that code returns says that it is
-- free of them. A DataBuffer is over a malloc that is a parameter, a Rep over the entries of a
-- directory, and readdata over the file's bytes and protobuf's parser of a stripe footer, which
-- are parameters too. The hash table keeps what C++ makes of a negative key, and a loop that
-- never ends is a result of its own.
--
-- Fuel and bounds: next and the loops of decodeFrom take as many rounds as there are bytes, since
-- each round takes a byte at least; the search of the hash table takes a round for each slot,
-- since then it meets slots again that it has met before. The other loops are structural.
--
-- A register of 256 bits is a function from its 32 bytes; the AVX2 operations on it are those of the
-- instruction set (Rle/Vector), which the source calls through the compiler's intrinsics. A load
-- of 32 bytes that are not all there is a fault.
--
-- The scanner's members that are read into stand in one record (Work). The batch that nextBatch
-- returns is that of the new state. The functions that were generated, the files at their paths
-- and protobuf's parsers are parameters of the scanner.
--
-- Not modelled: the floating point percentages of the statistics and toString, which shows them,
-- getCodeGen of Table, the system calls of FileInputStream, the flags of src/common/config.cpp, the
-- generated parser of the SQL front end, and the LLVM code generation.
pub mod ColumnInfo
pub mod Common
pub mod HashTable
pub mod MemoryPool
pub mod Reader
pub mod Rle
pub mod Scanner
pub mod Sql
pub mod Table
pub mod Util
