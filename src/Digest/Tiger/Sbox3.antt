-- ===== src/Digest/Tiger/Sbox3.antt =====
-- src/crypto/digest/tiger.cpp: entries 512 to 767 of `sboxes`, which the macro SBOX3 points at.
use samurai.Prelude.{ℕ, List, [], ◌∷◌}

abbrev pub sbox3_table : List ℕ
sbox3_table =
    0xF49FCC2FF1DAF39B ∷ 0x487FD5C66FF29281 ∷ 0xE8A30667FCDCA83F ∷ 0x2C9B4BE3D2FCCE63
    ∷ 0xDA3FF74B93FBBBC2 ∷ 0x2FA165D2FE70BA66 ∷ 0xA103E279970E93D4 ∷ 0xBECDEC77B0E45E71
    ∷ 0xCFB41E723985E497 ∷ 0xB70AAA025EF75017 ∷ 0xD42309F03840B8E0 ∷ 0x8EFC1AD035898579
    ∷ 0x96C6920BE2B2ABC5 ∷ 0x66AF4163375A9172 ∷ 0x2174ABDCCA7127FB ∷ 0xB33CCEA64A72FF41
    ∷ 0xF04A4933083066A5 ∷ 0x8D970ACDD7289AF5 ∷ 0x8F96E8E031C8C25E ∷ 0xF3FEC02276875D47
    ∷ 0xEC7BF310056190DD ∷ 0xF5ADB0AEBB0F1491 ∷ 0x9B50F8850FD58892 ∷ 0x4975488358B74DE8
    ∷ 0xA3354FF691531C61 ∷ 0x0702BBE481D2C6EE ∷ 0x89FB24057DEDED98 ∷ 0xAC3075138596E902
    ∷ 0x1D2D3580172772ED ∷ 0xEB738FC28E6BC30D ∷ 0x5854EF8F63044326 ∷ 0x9E5C52325ADD3BBE
    ∷ 0x90AA53CF325C4623 ∷ 0xC1D24D51349DD067 ∷ 0x2051CFEEA69EA624 ∷ 0x13220F0A862E7E4F
    ∷ 0xCE39399404E04864 ∷ 0xD9C42CA47086FCB7 ∷ 0x685AD2238A03E7CC ∷ 0x066484B2AB2FF1DB
    ∷ 0xFE9D5D70EFBF79EC ∷ 0x5B13B9DD9C481854 ∷ 0x15F0D475ED1509AD ∷ 0x0BEBCD060EC79851
    ∷ 0xD58C6791183AB7F8 ∷ 0xD1187C5052F3EEE4 ∷ 0xC95D1192E54E82FF ∷ 0x86EEA14CB9AC6CA2
    ∷ 0x3485BEB153677D5D ∷ 0xDD191D781F8C492A ∷ 0xF60866BAA784EBF9 ∷ 0x518F643BA2D08C74
    ∷ 0x8852E956E1087C22 ∷ 0xA768CB8DC410AE8D ∷ 0x38047726BFEC8E1A ∷ 0xA67738B4CD3B45AA
    ∷ 0xAD16691CEC0DDE19 ∷ 0xC6D4319380462E07 ∷ 0xC5A5876D0BA61938 ∷ 0x16B9FA1FA58FD840
    ∷ 0x188AB1173CA74F18 ∷ 0xABDA2F98C99C021F ∷ 0x3E0580AB134AE816 ∷ 0x5F3B05B773645ABB
    ∷ 0x2501A2BE5575F2F6 ∷ 0x1B2F74004E7E8BA9 ∷ 0x1CD7580371E8D953 ∷ 0x7F6ED89562764E30
    ∷ 0xB15926FF596F003D ∷ 0x9F65293DA8C5D6B9 ∷ 0x6ECEF04DD690F84C ∷ 0x4782275FFF33AF88
    ∷ 0xE41433083F820801 ∷ 0xFD0DFE409A1AF9B5 ∷ 0x4325A3342CDB396B ∷ 0x8AE77E62B301B252
    ∷ 0xC36F9E9F6655615A ∷ 0x85455A2D92D32C09 ∷ 0xF2C7DEA949477485 ∷ 0x63CFB4C133A39EBA
    ∷ 0x83B040CC6EBC5462 ∷ 0x3B9454C8FDB326B0 ∷ 0x56F56A9E87FFD78C ∷ 0x2DC2940D99F42BC6
    ∷ 0x98F7DF096B096E2D ∷ 0x19A6E01E3AD852BF ∷ 0x42A99CCBDBD4B40B ∷ 0xA59998AF45E9C559
    ∷ 0x366295E807D93186 ∷ 0x6B48181BFAA1F773 ∷ 0x1FEC57E2157A0A1D ∷ 0x4667446AF6201AD5
    ∷ 0xE615EBCACFB0F075 ∷ 0xB8F31F4F68290778 ∷ 0x22713ED6CE22D11E ∷ 0x3057C1A72EC3C93B
    ∷ 0xCB46ACC37C3F1F2F ∷ 0xDBB893FD02AAF50E ∷ 0x331FD92E600B9FCF ∷ 0xA498F96148EA3AD6
    ∷ 0xA8D8426E8B6A83EA ∷ 0xA089B274B7735CDC ∷ 0x87F6B3731E524A11 ∷ 0x118808E5CBC96749
    ∷ 0x9906E4C7B19BD394 ∷ 0xAFED7F7E9B24A20C ∷ 0x6509EADEEB3644A7 ∷ 0x6C1EF1D3E8EF0EDE
    ∷ 0xB9C97D43E9798FB4 ∷ 0xA2F2D784740C28A3 ∷ 0x7B8496476197566F ∷ 0x7A5BE3E6B65F069D
    ∷ 0xF96330ED78BE6F10 ∷ 0xEEE60DE77A076A15 ∷ 0x2B4BEE4AA08B9BD0 ∷ 0x6A56A63EC7B8894E
    ∷ 0x02121359BA34FEF4 ∷ 0x4CBF99F8283703FC ∷ 0x398071350CAF30C8 ∷ 0xD0A77A89F017687A
    ∷ 0xF1C1A9EB9E423569 ∷ 0x8C7976282DEE8199 ∷ 0x5D1737A5DD1F7ABD ∷ 0x4F53433C09A9FA80
    ∷ 0xFA8B0C53DF7CA1D9 ∷ 0x3FD9DCBC886CCB77 ∷ 0xC040917CA91B4720 ∷ 0x7DD00142F9D1DCDF
    ∷ 0x8476FC1D4F387B58 ∷ 0x23F8E7C5F3316503 ∷ 0x032A2244E7E37339 ∷ 0x5C87A5D750F5A74B
    ∷ 0x082B4CC43698992E ∷ 0xDF917BECB858F63C ∷ 0x3270B8FC5BF86DDA ∷ 0x10AE72BB29B5DD76
    ∷ 0x576AC94E7700362B ∷ 0x1AD112DAC61EFB8F ∷ 0x691BC30EC5FAA427 ∷ 0xFF246311CC327143
    ∷ 0x3142368E30E53206 ∷ 0x71380E31E02CA396 ∷ 0x958D5C960AAD76F1 ∷ 0xF8D6F430C16DA536
    ∷ 0xC8FFD13F1BE7E1D2 ∷ 0x7578AE66004DDBE1 ∷ 0x05833F01067BE646 ∷ 0xBB34B5AD3BFE586D
    ∷ 0x095F34C9A12B97F0 ∷ 0x247AB64525D60CA8 ∷ 0xDCDBC6F3017477D1 ∷ 0x4A2E14D4DECAD24D
    ∷ 0xBDB5E6D9BE0A1EEB ∷ 0x2A7E70F7794301AB ∷ 0xDEF42D8A270540FD ∷ 0x01078EC0A34C22C1
    ∷ 0xE5DE511AF4C16387 ∷ 0x7EBB3A52BD9A330A ∷ 0x77697857AA7D6435 ∷ 0x004E831603AE4C32
    ∷ 0xE7A21020AD78E312 ∷ 0x9D41A70C6AB420F2 ∷ 0x28E06C18EA1141E6 ∷ 0xD2B28CBD984F6B28
    ∷ 0x26B75F6C446E9D83 ∷ 0xBA47568C4D418D7F ∷ 0xD80BADBFE6183D8E ∷ 0x0E206D7F5F166044
    ∷ 0xE258A43911CBCA3E ∷ 0x723A1746B21DC0BC ∷ 0xC7CAA854F5D7CDD3 ∷ 0x7CAC32883D261D9C
    ∷ 0x7690C26423BA942C ∷ 0x17E55524478042B8 ∷ 0xE0BE477656A2389F ∷ 0x4D289B5E67AB2DA0
    ∷ 0x44862B9C8FBBFD31 ∷ 0xB47CC8049D141365 ∷ 0x822C1B362B91C793 ∷ 0x4EB14655FB13DFD8
    ∷ 0x1ECBBA0714E2A97B ∷ 0x6143459D5CDE5F14 ∷ 0x53A8FBF1D5F0AC89 ∷ 0x97EA04D81C5E5B00
    ∷ 0x622181A8D4FDB3F3 ∷ 0xE9BCD341572A1208 ∷ 0x1411258643CCE58A ∷ 0x9144C5FEA4C6E0A4
    ∷ 0x0D33D06565CF620F ∷ 0x54A48D489F219CA1 ∷ 0xC43E5EAC6D63C821 ∷ 0xA9728B3A72770DAF
    ∷ 0xD7934E7B20DF87EF ∷ 0xE35503B61A3E86E5 ∷ 0xCAE321FBC819D504 ∷ 0x129A50B3AC60BFA6
    ∷ 0xCD5E68EA7E9FB6C3 ∷ 0xB01C90199483B1C7 ∷ 0x3DE93CD5C295376C ∷ 0xAED52EDF2AB9AD13
    ∷ 0x2E60F512C0A07884 ∷ 0xBC3D86A3E36210C9 ∷ 0x35269D9B163951CE ∷ 0x0C7D6E2AD0CDB5FA
    ∷ 0x59E86297D87F5733 ∷ 0x298EF221898DB0E7 ∷ 0x55000029D1A5AA7E ∷ 0x8BC08AE1B5061B45
    ∷ 0xC2C31C2B6C92703A ∷ 0x94CC596BAF25EF42 ∷ 0x0A1D73DB22540456 ∷ 0x04B6A0F9D9C4179A
    ∷ 0xEFFDAFA2AE3D3C60 ∷ 0xF7C8075BB49496C4 ∷ 0x9CC5C7141D1CD4E3 ∷ 0x78BD1638218E5534
    ∷ 0xB2F11568F850246A ∷ 0xEDFABCFA9502BC29 ∷ 0x796CE5F2DA23051B ∷ 0xAAE128B0DC93537C
    ∷ 0x3A493DA0EE4B29AE ∷ 0xB5DF6B2C416895D7 ∷ 0xFCABBD25122D7F37 ∷ 0x70810B58105DC4B1
    ∷ 0xE10FDD37F7882A90 ∷ 0x524DCAB5518A3F5C ∷ 0x3C9E85878451255B ∷ 0x4029828119BD34E2
    ∷ 0x74A05B6F5D3CECCB ∷ 0xB610021542E13ECA ∷ 0x0FF979D12F59E2AC ∷ 0x6037DA27E4F9CC50
    ∷ 0x5E92975A0DF1847D ∷ 0xD66DE190D3E623FE ∷ 0x5032D6B87B568048 ∷ 0x9A36B7CE8235216E
    ∷ 0x80272A7A24F64B4A ∷ 0x93EFED8B8C6916F7 ∷ 0x37DDBFF44CCE1555 ∷ 0x4B95DB5D4B99BD25
    ∷ 0x92D3FDA169812FC0 ∷ 0xFB1A4A9A90660BB6 ∷ 0x730C196946A4B9B2 ∷ 0x81E289AA7F49DA68
    ∷ 0x64669A0F83B1A05F ∷ 0x27B3FF7D9644F48B ∷ 0xCC6B615C8DB675B3 ∷ 0x674F20B9BCEBBE95
    ∷ 0x6F31238275655982 ∷ 0x5AE488713E45CF05 ∷ 0xBF619F9954C21157 ∷ 0xEABAC46040A8EAE9
    ∷ 0x454C6FE9F2C0C1CD ∷ 0x419CF6496412691C ∷ 0xD3DC3BEF265B0F70 ∷ 0x6D0E60F5C3578A9E ∷ []
